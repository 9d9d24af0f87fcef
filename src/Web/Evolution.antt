-- ===== src/Web/Evolution.antt =====
-- How the table of sessions changes: rows are added under a fresh key and changed in place, never
-- deleted.
use wiregate.Prelude.{
  [], ◌∷◌, refl, List, Bool, All, ◌≡◌, true, false, ◌≤◌, ◌++◌, ap, Bool-cases, arith, inl, ◌∙◌, inr,
  subst,
}
use wiregate.Stdlib.Bytes.{Bytes, same}
use wiregate.Stdlib.Rows.{update_rows, any_row, update_rows-All}
use wiregate.Web.Tables.{SessionRow}
use wiregate.Web.Sessions.{is_null}
use wiregate.Stdlib.Same.{same-eq}

-- What an update of a session leaves alone: all but the times and the first revocation.
pub record Change (s s' : SessionRow) : Type 0 where
  pub same_hash : s'.id_hash ≡ s.id_hash
  pub same_user : s'.user_id ≡ s.user_id
  pub same_csrf : s'.csrf_hash ≡ s.csrf_hash
  pub same_expiry : s'.expires_at_ms ≡ s.expires_at_ms
  pub bounded : s.idle_expires_at_ms ≤ s.expires_at_ms → s'.idle_expires_at_ms ≤ s'.expires_at_ms
  pub stays_revoked : is_null s.revoked_at_ms ≡ false → s'.revoked_at_ms ≡ s.revoked_at_ms

pub data Evolves (xs : List SessionRow) : List SessionRow → Type 0 where
  stays : Evolves xs xs
  changes :
      (ys : List SessionRow) (p : SessionRow → Bool) (f : SessionRow → SessionRow)
      → Evolves xs ys
      → ((s : SessionRow) → p s ≡ true → Change s (f s))
      → Evolves xs (update_rows p f ys)
  opens :
      (ys : List SessionRow) (s : SessionRow)
      → Evolves xs ys
      → any_row (λ r. same r.id_hash s.id_hash) ys ≡ false
      → s.idle_expires_at_ms ≤ s.expires_at_ms
      → Evolves xs (ys ++ s ∷ [])

pub Evolves-trans : (xs ys zs : List SessionRow) → Evolves xs ys → Evolves ys zs → Evolves xs zs
Evolves-trans xs ys zs e stays = e
Evolves-trans xs ys zs e (changes ws p f g c) = changes ws p f (Evolves-trans xs ys ws e g) c
Evolves-trans xs ys zs e (opens ws s g fresh b) = opens ws s (Evolves-trans xs ys ws e g) fresh b

-- The idle limit of a session lies within its end.
abbrev pub IsBounded : SessionRow → Type 0
IsBounded s = s.idle_expires_at_ms ≤ s.expires_at_ms

pub All-append :
    {A : Type 0} (Q : A → Type 0) (xs ys : List A) → All Q xs → All Q ys → All Q (xs ++ ys)
All-append Q [] ys p q = q
All-append Q (x ∷ xs) ys p q = (p.0, All-append Q xs ys p.1 q)

pub Evolves-IsBounded :
    (xs ys : List SessionRow) → Evolves xs ys → All IsBounded xs → All IsBounded ys
Evolves-IsBounded xs ys stays all = all
Evolves-IsBounded xs ys (changes ws p f e c) all =
    update_rows-All p f IsBounded ws (λ r h b. (c r h).bounded b) (Evolves-IsBounded xs ws e all)
Evolves-IsBounded xs ys (opens ws s e fresh b) all =
    All-append IsBounded ws (s ∷ []) (Evolves-IsBounded xs ws e all) (b, tt)

-- The sessions of a hash are revoked.
abbrev pub IsRevokedAt : Bytes → SessionRow → Type 0
IsRevokedAt hash s = same s.id_hash hash ≡ true → is_null s.revoked_at_ms ≡ false

-- There is a session of the hash, and every such session is revoked.
pub record Revoked (hash : Bytes) (xs : List SessionRow) : Type 0 where
  pub present : any_row (λ s. same s.id_hash hash) xs ≡ true
  pub closed : All (IsRevokedAt hash) xs

pub any_row-update :
    (q p : SessionRow → Bool) (f : SessionRow → SessionRow) (xs : List SessionRow)
    → ((s : SessionRow) → p s ≡ true → q (f s) ≡ q s)
    → any_row q (update_rows p f xs) ≡ any_row q xs
any_row-update q p f [] keep = refl
any_row-update q p f (x ∷ xs) keep = elim (Bool-cases (p x)) [
  | inl e ↦ rw e (rw (keep x e, any_row-update q p f xs keep))
  | inr e ↦ rw e (rw (any_row-update q p f xs keep))
]

any_row-append :
    (q : SessionRow → Bool) (xs ys : List SessionRow)
    → any_row q xs ≡ true
    → any_row q (xs ++ ys) ≡ true
any_row-append q [] ys h = cc
any_row-append q (x ∷ xs) ys h = ground (arith, any_row-append q xs ys)

Change-IsRevokedAt :
    (hash : Bytes) (s s' : SessionRow) → Change s s' → IsRevokedAt hash s → IsRevokedAt hash s'
Change-IsRevokedAt hash s s' c r h =
    rw (c.stays_revoked (r (rw c.same_hash at h))) (r (rw c.same_hash at h))

-- A hash in use is not fresh.
fresh_other :
    (hash other : Bytes) (xs : List SessionRow)
    → any_row (λ s. same s.id_hash hash) xs ≡ true
    → any_row (λ s. same s.id_hash other) xs ≡ false
    → same other hash ≡ false
fresh_other hash other xs h fresh = elim (Bool-cases (same other hash)) [
  | inr e ↦ e
  | inl e ↦
      cc (subst (λ x. any_row (λ s. same s.id_hash x) xs ≡ false) (same-eq other hash e) fresh)
]

pub Evolves-Revoked :
    (hash : Bytes) (xs ys : List SessionRow) → Evolves xs ys → Revoked hash xs → Revoked hash ys
Evolves-Revoked hash xs ys stays r = r
Evolves-Revoked hash xs ys (changes ws p f e c) r =
    let before : Revoked hash ws = Evolves-Revoked hash xs ws e r in
    record {
      present =
          any_row-update (λ s. same s.id_hash hash) p f ws
            (λ s h. ap (λ x. same x hash) (c s h).same_hash)
          ∙ before.present;
      closed =
          update_rows-All p f (IsRevokedAt hash) ws (λ s h. Change-IsRevokedAt hash s (f s) (c s h))
            before.closed;
    }
Evolves-Revoked hash xs ys (opens ws s e fresh b) r =
    let before : Revoked hash ws = Evolves-Revoked hash xs ws e r in
    record {
      present = any_row-append (λ t. same t.id_hash hash) ws (s ∷ []) before.present;
      closed =
          All-append (IsRevokedAt hash) ws (s ∷ []) before.closed
            ((λ h. cc (fresh_other hash s.id_hash ws before.present fresh)), tt);
    }
