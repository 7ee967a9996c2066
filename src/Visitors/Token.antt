-- ===== src/Visitors/Token.antt =====
-- visitors/visitors.service.ts: the token of a pass, out of what a scanner reads.
use tomafix_backend.Prelude.{
  zero, suc, ℕ, ◌-◌, [], ◌∷◌, Option, none, some, Text, codes, trim, starts_with, ◌==◌, nat_eq,
  list_eq, if◌then◌else◌, length, drop,
}
use tomafix_backend.Billing.Store.Enums.{role_eq}
use tomafix_backend.Visitors.Tables.{visitor_status_eq}

-- `split(part).pop()`: what follows the last of the pieces that a search from the left finds, if one
-- is found; `skip` units of a piece are still to pass.
unfoldable pub last_piece : Text → ℕ → Text → Option Text → Option Text
last_piece part skip [] best = best
last_piece part (suc skip) (c ∷ text) best = last_piece part skip text best
last_piece part zero (c ∷ text) best =
    let found = starts_with (c ∷ text) part in
    last_piece part (if found then length part - 1 else 0) text
      (if found then some (drop (length part) (c ∷ text)) else best)

-- `split(d)[0]`
unfoldable pub until : ℕ → Text → Text
until d [] = []
until d (c ∷ text) = if c == d then [] else c ∷ until d text

abbrev pub pass_path : Text
pass_path = codes "/visitor-pass/"

-- A pass is shown as its link, which is stripped, or as its token.
unfoldable pub token_of : Text → Text
unfolding last_piece until
token_of raw = elim (last_piece pass_path 0 (trim raw) none) [
  | none ↦ trim raw
  | some piece ↦ until 35 (until 63 piece)
]
