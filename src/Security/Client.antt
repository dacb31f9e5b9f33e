-- ===== src/Security/Client.antt =====
-- `client_ip` of backend/app/security/core.py. The membership of an address in a CIDR range is an
-- argument; it is missing when either does not parse.
use ap2web.Prelude.{
  All, Bool, Bool-cases, List, Option, Text, [], codes, false, get_or_else, if◌then◌else◌, inl, inr,
  is_empty, none, refl, some, split_on, strip, true, ◌∷◌, ◌≡◌,
}

-- `any(… for cidr in cidrs)`, ended by the first range that does not parse.
unfoldable pub any_range : (Text → Text → Option Bool) → Text → List Text → Option Bool
any_range within peer [] = some false
any_range within peer (c ∷ cs) =
    let rest = any_range within peer cs in
    elim (within peer c) [ none ↦ none | some b ↦ if b then some true else rest ]

-- `_trusted_proxy`
unfoldable pub trusted_proxy : (Text → Text → Option Bool) → List Text → Text → Bool
unfolding any_range
trusted_proxy within cidrs peer =
    if is_empty cidrs then false else get_or_else false (any_range within peer cidrs)

-- The first part of a text that is split.
abbrev pub head_or : Text → List Text → Text
head_or default [] = default
head_or default (p ∷ ps) = p

-- `client_ip`: the address that the middleware has set, the peer's address and the forwarded header
-- may be missing.
unfoldable pub client_ip :
    (Text → Text → Option Bool) → List Text → Option Text → Option Text → Option Text → Text
unfolding trusted_proxy split_on strip
client_ip within cidrs preset peer forwarded = elim (filled preset) [
  | some ip ↦ ip
  | none ↦
      let p = get_or_else (codes "unknown") peer in
      if trusted_proxy within cidrs p
      then (elim (filled forwarded) [ none ↦ p | some f ↦ strip (head_or [] (split_on b',' f)) ])
      else p
]
  where
    filled : Option Text → Option Text
    filled none = none
    filled (some t) = if is_empty t then none else some t

any_range-outside :
    (within : Text → Text → Option Bool) (peer : Text) (cidrs : List Text)
    → All (λ c. within peer c ≡ some false) cidrs
    → any_range within peer cidrs ≡ some false
unfolding any_range
any_range-outside within peer [] h = refl
any_range-outside within peer (c ∷ cs) h =
    rw (h.0, any_range) (any_range-outside within peer cs h.1)

-- A forwarded header cannot be forged: for a peer that is in none of the configured ranges, of which
-- there may be none, the address is the peer's own, whatever the header says.
pub client_ip-outside :
    (within : Text → Text → Option Bool) (cidrs : List Text) (peer : Text) (forwarded : Option Text)
    → All (λ c. within peer c ≡ some false) cidrs
    → client_ip within cidrs none (some peer) forwarded ≡ peer
unfolding client_ip trusted_proxy
client_ip-outside within cidrs peer forwarded h = rw (outside, client_ip) refl
  where
    outside : trusted_proxy within cidrs peer ≡ false
    outside = elim (Bool-cases (is_empty cidrs)) [
      | inl e ↦ rw (e, trusted_proxy) refl
      | inr e ↦ rw (e, trusted_proxy) (rw (any_range-outside within peer cidrs h) refl)
    ]
