-- ===== src/Cloud/Names/Distinct.antt =====
-- Which names two tenants can share, and who owns an auxiliary database.
use tenantflow.Prelude.{
  ℕ, suc, Text, true, false, ◌≡◌, refl, sym, ap, ◌∙◌, ◌↔◌, ◌≢◌, [], ◌∷◌, ◌++◌, ◌-◌, arith, take,
  drop, length, length-append, append_left_cancel, text_eq, text_eq_refl, codes,
}
use mathlib.Core.List.{append_assoc}
use tenantflow.Cloud.Names.{
  name_prefix, tenant_database_name, new_db_name, temp_db_name, new_suffix, temp_suffix, has_suffix,
  trim_suffix, role_of,
}

drop-append : (s t : Text) → drop (length s) (s ++ t) ≡ t
drop-append [] t = refl
drop-append (c ∷ s) t = drop-append s t

take-append : (s t : Text) → take (length s) (s ++ t) ≡ s
take-append [] t = refl
take-append (c ∷ s) t = ap (λ r. c ∷ r) (take-append s t)

length_less_suffix : (s t : Text) → length (s ++ t) - length t ≡ length s
length_less_suffix s t = omega (arith, length-append s t)

trim_suffix-append : (s t : Text) → trim_suffix (s ++ t) t ≡ s
unfolding trim_suffix has_suffix
trim_suffix-append s t =
    rw (length_less_suffix s t)
      (ground (arith, length-append s t, drop-append s t, take-append s t, text_eq_refl t))

has_suffix-append : (s t : Text) → has_suffix (s ++ t) t ≡ true
unfolding has_suffix
has_suffix-append s t =
    rw (length_less_suffix s t) (ground (arith, length-append s t, drop-append s t, text_eq_refl t))

drop_one_more : (s t : Text) (c : ℕ) → drop (suc (length s)) (s ++ (c ∷ t)) ≡ t
drop_one_more [] t c = refl
drop_one_more (d ∷ s) t c = drop_one_more s t c

not_new-of-temp : (s : Text) → has_suffix (s ++ temp_suffix) new_suffix ≡ false
unfolding has_suffix text_eq
not_new-of-temp s =
    let less : length (s ++ temp_suffix) - length new_suffix ≡ suc (length s) =
      omega (arith, length-append s temp_suffix) in
    rw (less, drop_one_more s (codes "temp") b'_') (ground arith)

role_of-append_new : (s : Text) → role_of (s ++ new_suffix) ≡ s
unfolding role_of
role_of-append_new s = rw (has_suffix-append s new_suffix) (trim_suffix-append s new_suffix)

role_of-append_temp : (s : Text) → role_of (s ++ temp_suffix) ≡ s
unfolding role_of
role_of-append_temp s =
    rw (not_new-of-temp s, has_suffix-append s temp_suffix) (trim_suffix-append s temp_suffix)

-- The owner of both auxiliary databases of a tenant is the role that is named like its database.
role_of-aux_names :
    (id : Text)
    → (role_of (new_db_name id) ≡ tenant_database_name id)
      × (role_of (temp_db_name id) ≡ tenant_database_name id)
unfolding new_db_name temp_db_name tenant_database_name
role_of-aux_names id = (
  ap role_of (sym (append_assoc name_prefix id new_suffix))
      ∙ role_of-append_new (name_prefix ++ id),
  ap role_of (sym (append_assoc name_prefix id temp_suffix))
      ∙ role_of-append_temp (name_prefix ++ id),
)

-- Different tenants have different databases.
pub tenant_database_name_injective :
    (a b : Text) → tenant_database_name a ≡ tenant_database_name b → a ≡ b
unfolding tenant_database_name
tenant_database_name_injective a b h = append_left_cancel name_prefix a b h

-- The auxiliary database of one tenant is another tenant's own database exactly when the other's ID
-- is the first one's with the suffix.
pub aux_name_taken :
    (a b : Text)
    → ((new_db_name a ≡ tenant_database_name b) ↔ (b ≡ a ++ new_suffix))
      × ((temp_db_name a ≡ tenant_database_name b) ↔ (b ≡ a ++ temp_suffix))
unfolding new_db_name temp_db_name tenant_database_name
aux_name_taken a b = (
  (λ h. sym (append_left_cancel name_prefix (a ++ new_suffix) b h), λ e. rw e),
  (λ h. sym (append_left_cancel name_prefix (a ++ temp_suffix) b h), λ e. rw e),
)

-- A tenant whose ID ends in a suffix owns, by the provider's rule, what belongs to another: its
-- database is given the role of the tenant without the suffix.
role_of_suffixed :
    (id : Text) → role_of (tenant_database_name (id ++ new_suffix)) ≡ tenant_database_name id
unfolding new_db_name tenant_database_name
role_of_suffixed id = (role_of-aux_names id).0

append_longer : (s t : Text) (c : ℕ) → s ≢ s ++ (c ∷ t)
append_longer s t c e = omega (arith, length-append s (c ∷ t), ap (λ (r : Text). length r) e)

-- A tenant's own database is neither of its auxiliary ones.
pub tenant_database_name-ne-new_db_name : (id : Text) → tenant_database_name id ≢ new_db_name id
tenant_database_name-ne-new_db_name id e =
    append_longer id (codes "new") b'_' ((aux_name_taken id id).0.0 (sym e))

pub tenant_database_name-ne-temp_db_name : (id : Text) → tenant_database_name id ≢ temp_db_name id
tenant_database_name-ne-temp_db_name id e =
    append_longer id (codes "temp") b'_' ((aux_name_taken id id).1.0 (sym e))
