-- ===== src/Api/References.antt =====
-- What refers to a user in the store of internal/api/server.go, apart from the tests of `DeleteUser`.
use woms.Base.{
  ◌≡◌, ◌⊎◌, refl, inl, inr, Bool, true, false, ◌||◌, some, List, [], ◌∷◌, ◌++◌, String, str_eq,
  eq_iff, arith, Bool-cases, any_of,
}
use woms.Base.Maps.{Map, lookup, values}
use woms.Domain.{User, Order, AuditEntry}
use woms.Api.Requests.{PreviewRecord}
use woms.Api.State.{MemoryStore}
use woms.Api.Users.{
  is_referenced, user_has_order_references_locked, user_has_audit_references_locked,
  user_has_preview_references_locked,
}

-- What refers to a user: who acts is the user, an order that they made or rejected, an audit entry or
-- a preview of theirs.
pub data Reference (actor : String) (user : User) (s : MemoryStore) : Type 0 where
  acts : actor ≡ user.id → Reference actor user s
  creates :
      (id : String) (o : Order)
      → lookup id s.orders ≡ some o
      → o.created_by ≡ user.id
      → Reference actor user s
  rejects :
      (id : String) (o : Order)
      → lookup id s.orders ≡ some o
      → o.rejected_by ≡ user.id
      → Reference actor user s
  audited :
      (before after : List AuditEntry) (entry : AuditEntry)
      → s.audits ≡ before ++ entry ∷ after
      → entry.actor_id ≡ user.id
      → Reference actor user s
  previews :
      (id : String) (p : PreviewRecord)
      → lookup id s.previews ≡ some p
      → p.actor_id ≡ user.id
      → Reference actor user s

some-injective {ℓ} : {V : Type ℓ} {a b : V} → some a ≡ some b → a ≡ b
some-injective h = cc

or_true : (a b : Bool) → b ≡ true → a || b ≡ true
or_true true b h = refl
or_true false b h = h

or_left : (a b : Bool) → a ≡ true → a || b ≡ true
or_left a b h = ground arith

any_of-lookup {ℓ} :
    {V : Type ℓ} (test : V → Bool) (id : String) (v : V) (m : Map V)
    → lookup id m ≡ some v
    → test v ≡ true
    → any_of test (values m) ≡ true
unfolding any_of lookup
any_of-lookup test id v [] h k = cc
any_of-lookup test id v ((name, w) ∷ m) h k = elim (Bool-cases (str_eq name id)) [
  | inl same ↦ let found : w ≡ v = some-injective (rw (same, lookup) at h) in rw (found, k) refl
  | inr other ↦ or_true (test w) _ (any_of-lookup test id v m (rw (other, lookup) at h) k)
]

any_of-append {ℓ} :
    {V : Type ℓ} (test : V → Bool) (before after : List V) (v : V)
    → test v ≡ true
    → any_of test (before ++ v ∷ after) ≡ true
unfolding any_of
any_of-append test [] after v k = rw k refl
any_of-append test (w ∷ before) after v k = or_true (test w) _ (any_of-append test before after v k)

one_of_four :
    (a b c d : Bool)
    → (a ≡ true) ⊎ ((b ≡ true) ⊎ ((c ≡ true) ⊎ (d ≡ true)))
    → a || b || c || d ≡ true
one_of_four a b c d h = ground (arith, h)

module _ (actor : String) (user : User) (s : MemoryStore) where
  ordered :
      (id : String) (o : Order)
      → lookup id s.orders ≡ some o
      → str_eq o.created_by user.id || str_eq o.rejected_by user.id ≡ true
      → user_has_order_references_locked user.id s ≡ true
  unfolding user_has_order_references_locked
  ordered id o found h =
      any_of-lookup (λ (x : Order). str_eq x.created_by user.id || str_eq x.rejected_by user.id) id
        o s.orders found h

  in_audits :
      (before after : List AuditEntry) (entry : AuditEntry)
      → s.audits ≡ before ++ entry ∷ after
      → entry.actor_id ≡ user.id
      → user_has_audit_references_locked user.id s ≡ true
  unfolding user_has_audit_references_locked
  in_audits before after entry split same = rw split (
      any_of-append (λ (x : AuditEntry). str_eq x.actor_id user.id) before after entry
        ((eq_iff entry.actor_id user.id).1 same))

  previewed_by :
      (id : String) (p : PreviewRecord)
      → lookup id s.previews ≡ some p
      → p.actor_id ≡ user.id
      → user_has_preview_references_locked user.id s ≡ true
  unfolding user_has_preview_references_locked
  previewed_by id p found same =
      any_of-lookup (λ (x : PreviewRecord). str_eq x.actor_id user.id) id p s.previews found
        ((eq_iff p.actor_id user.id).1 same)

  flags :
      Reference actor user s
      → (str_eq actor user.id ≡ true)
        ⊎ ((user_has_order_references_locked user.id s ≡ true)
            ⊎ ((user_has_audit_references_locked user.id s ≡ true)
                ⊎ (user_has_preview_references_locked user.id s ≡ true)))
  flags (acts same) = inl ((eq_iff actor user.id).1 same)
  flags (creates id o found same) =
      inr (inl (ordered id o found (or_left _ _ ((eq_iff o.created_by user.id).1 same))))
  flags (rejects id o found same) =
      inr (inl (ordered id o found (or_true _ _ ((eq_iff o.rejected_by user.id).1 same))))
  flags (audited before after entry split same) =
      inr (inr (inl (in_audits before after entry split same)))
  flags (previews id p found same) = inr (inr (inr (previewed_by id p found same)))

  pub Reference-is_referenced : Reference actor user s → is_referenced actor user s ≡ true
  Reference-is_referenced h = one_of_four _ _ _ _ (flags h)
