-- ===== src/Auth/Store/Cases.antt =====
-- What `create_user` can come to.
use clickup_sync.Common.{
  ◌≡◌, false, ◌∷◌, Bool-cases, Option-cases, inl, inr, find_first, Result, ok, err, Exception,
}
use clickup_sync.Auth.Store.{User, AuthDb, find_by_id, is_found, has_email, is_org, create_user}

-- Either it throws and changes nothing, or it adds the row under a new key and a new address.
pub create_user_cases :
    (u : User) (db : AuthDb) (P : Result User × AuthDb → Type 0)
    → ((e : Exception) → P (err e, db))
    → (is_found (find_by_id u.id db.users) ≡ false → P (ok u, record db { users = u ∷ db.users }))
    → P (create_user u db)
create_user_cases u db P thrown added = elim (Bool-cases (is_found (find_by_id u.id db.users))) [
  | inl taken ↦ rw taken (thrown _)
  | inr new ↦ elim (Bool-cases (is_found (find_first (has_email u.email) db.users))) [
    | inl used ↦ rw (new, used) (thrown _)
    | inr free ↦ elim (Option-cases (find_first (is_org u.org_id) db.orgs)) [
      | inl e ↦ rw (new, free, e) (thrown _)
      | inr (o, e) ↦ rw (new, free, e) (added new)
    ]
  ]
]
