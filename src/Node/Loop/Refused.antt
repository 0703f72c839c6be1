-- ===== src/Node/Loop/Refused.antt =====
-- The calls of `sendto` that a node makes, and what it means that the last of them failed.
use cpp_rt_pubsub.Prelude.{
  ◌≡◌, sym, ◌∙◌, ap, Bool, false, List, [], ◌∷◌, ◌++◌, append_assoc, append-nil, Bytes,
}

-- The calls of `sendto` in the second list are those in the first and later ones.
abbrev pub Continues : List Bytes → List Bytes → Type 0
Continues before sent = (more : List Bytes) × (sent ≡ before ++ more)

pub Continues-refl : (xs : List Bytes) → Continues xs xs
Continues-refl xs = ([], sym (append-nil xs))

pub Continues-trans : (xs ys zs : List Bytes) → Continues xs ys → Continues ys zs → Continues xs zs
Continues-trans xs ys zs (a, e) (b, f) = (a ++ b, f ∙ ap (λ t. t ++ b) e ∙ append_assoc xs a b)

-- Of the calls of `sendto` from `start` on, the last is that of a packet which `accepts`, for the calls
-- before it, says fails.
pub record LastRefused (accepts : List Bytes → Bytes → Bool) (start sent : List Bytes)
    : Type 0 where
  pub earlier : List Bytes
  pub packet : Bytes
  pub since : Continues start earlier
  pub last : sent ≡ earlier ++ packet ∷ []
  pub refused : accepts earlier packet ≡ false

pub LastRefused-earlier :
    (accepts : List Bytes → Bytes → Bool) (start later sent : List Bytes)
    → Continues start later
    → LastRefused accepts later sent
    → LastRefused accepts start sent
LastRefused-earlier accepts start later sent c r = record {
  earlier = r.earlier;
  packet = r.packet;
  since = Continues-trans start later r.earlier c r.since;
  last = r.last;
  refused = r.refused;
}
