-- ===== src/Meta/Ownership/Fencing.antt =====
-- A generation never falls, and while it stands its owner stays: what makes it a fencing token.
use Prim.Native.String.{String}
use text.Mathlib.Text.{◌==◌ as str_eq}
use text.Mathlib.TextEquality.{eq_iff}
use text.Mathlib.TextPositions.{eq_refl}
use memorylayer_storage.Prelude.{
  ℕ, ◌+◌, ◌≤◌, ◌≡◌, refl, ◌∙◌, true, false, Option, none, some, arith, inl, inr, Option-cases,
  Bool-cases,
}
use memorylayer_storage.Meta.Errno.{Server, healthy}
use memorylayer_storage.Meta.Ownership.{
  Lease, Leases, acquired, failed, granted, put_row, acquire_or_resume, refresh, release_ownership,
  check_fence, set_expiry, err_fenced,
}

-- The lease `b` may stand in the table after `a`.
pub record Follows (a b : Lease) : Type 0 where
  pub grows : a.generation ≤ b.generation
  pub same : a.generation ≡ b.generation → a.owner_node ≡ b.owner_node

-- Every row of the first table is followed by a row of the second.
abbrev pub Later : Leases → Leases → Type 0
Later t u = (s : String) (a : Lease) → t s ≡ some a → (b : Lease) × (u s ≡ some b) × Follows a b

Follows-refl : (a : Lease) → Follows a a
Follows-refl a = record { grows = omega arith; same = λ e. refl }

pub Follows-trans : {a b c : Lease} → Follows a b → Follows b c → Follows a c
Follows-trans v w = record {
  grows = omega arith;
  same = λ e. v.same (omega arith) ∙ w.same (omega arith);
}

pub Later-refl : (t : Leases) → Later t t
Later-refl t s a e = (a, e, Follows-refl a)

Later-trans : (t u w : Leases) → Later t u → Later u w → Later t w
Later-trans t u w f g s a e =
    let (b, p, v) = f s a e in let (c, q, x) = g s b p in (c, q, Follows-trans v x)

granted-Follows :
    (now : ℕ) (node : String) (ttl : ℕ) (a : Lease) → Follows a (granted now node ttl (some a)).0
granted-Follows now node ttl a = record {
  grows = ground arith;
  same = λ e. ground (arith, eq_iff a.owner_node node);
}

put_row-Later :
    (scope : String) (l : Lease) (t : Leases)
    → ((a : Lease) → t scope ≡ some a → Follows a l)
    → Later t (put_row scope l t)
put_row-Later scope l t f s a e = elim (Bool-cases (str_eq scope s)) [
  | inl h ↦ (l, rw h, f a (rw ((eq_iff scope s).0 h) e))
  | inr h ↦ (a, rw h e, Follows-refl a)
]

granted_of :
    (now : ℕ) (node : String) (ttl : ℕ) (o : Option Lease) (a : Lease)
    → o ≡ some a
    → Follows a (granted now node ttl o).0
granted_of now node ttl o a e = rw e (granted-Follows now node ttl a)

acquire_cases {ℓ} :
    (P : Leases → Type ℓ) (server : Server) (now : ℕ) (scope node : String) (ttl : ℕ) (t : Leases)
    → P t
    → P (put_row scope (granted now node ttl (t scope)).0 t)
    → P (acquire_or_resume server now scope node ttl t).0
unfolding acquire_or_resume
acquire_cases P server now scope node ttl t same put = ground (arith, same, put)

-- `AcquireOrResume` never drops a lease, takes a generation back or gives a generation to another owner.
pub acquire_or_resume-Later :
    (server : Server) (now : ℕ) (scope node : String) (ttl : ℕ) (t : Leases)
    → Later t (acquire_or_resume server now scope node ttl t).0
acquire_or_resume-Later server now scope node ttl t =
    acquire_cases (Later t) server now scope node ttl t (Later-refl t)
      (put_row-Later scope (granted now node ttl (t scope)).0 t (granted_of now node ttl (t scope)))

set_expiry-Later :
    (expires : ℕ) (scope : String) (t : Leases) → Later t (set_expiry expires scope t)
set_expiry-Later expires scope t s a e = elim (Bool-cases (str_eq scope s)) [
  | inl h ↦ (
    record a { expires = expires },
    ground arith,
    record { grows = omega arith; same = λ k. refl },
  )
  | inr h ↦ (a, ground arith, Follows-refl a)
]

refresh_cases {ℓ} :
    (P : Leases → Type ℓ) (server : Server) (now : ℕ) (scope node : String) (g ttl : ℕ) (t : Leases)
    → P t
    → P (set_expiry (now + ttl) scope t)
    → P (refresh server now scope node g ttl t).0
unfolding refresh
refresh_cases P server now scope node g ttl t same set = ground (arith, same, set)

release_cases {ℓ} :
    (P : Leases → Type ℓ) (server : Server) (scope node : String) (g : ℕ) (t : Leases)
    → P t
    → P (set_expiry 0 scope t)
    → P (release_ownership server scope node g t).0
unfolding release_ownership
release_cases P server scope node g t same set = ground (arith, same, set)

pub refresh-Later :
    (server : Server) (now : ℕ) (scope node : String) (generation ttl : ℕ) (t : Leases)
    → Later t (refresh server now scope node generation ttl t).0
refresh-Later server now scope node generation ttl t =
    refresh_cases (Later t) server now scope node generation ttl t (Later-refl t)
      (set_expiry-Later (now + ttl) scope t)

pub release_ownership-Later :
    (server : Server) (scope node : String) (generation : ℕ) (t : Leases)
    → Later t (release_ownership server scope node generation t).0
release_ownership-Later server scope node generation t =
    release_cases (Later t) server scope node generation t (Later-refl t)
      (set_expiry-Later 0 scope t)

-- `AcquireOrResume` whatever the server does. A lease that it reports held is the row of the scope,
-- passes the fence of its node at its generation, and shuts every other node out at every
-- generation; a lease that it reports not held is the unchanged row of another node, not expired; an
-- error changes nothing.
pub acquire_or_resume_outcome :
    (server : Server) (now : ℕ) (scope node : String) (ttl : ℕ) (t : Leases)
    → let (t', r) = acquire_or_resume server now scope node ttl t in
      ((l : Lease)
        → r ≡ acquired l true
        → (t' scope ≡ some l)
          × (check_fence true healthy node scope l.generation t' ≡ none)
          × ((m : String) (g : ℕ)
              → str_eq node m ≡ false
              → check_fence true healthy m scope g t' ≡ some err_fenced))
      × ((l : Lease)
          → r ≡ acquired l false
          → (t scope ≡ some l) × (str_eq l.owner_node node ≡ false) × (now ≤ l.expires) × (t' ≡ t))
      × (r ≡ failed → t' ≡ t)
unfolding acquire_or_resume check_fence
acquire_or_resume_outcome server now scope node ttl t = (
  λ l h. (
    ground (arith, eq_refl scope),
    ground (arith, eq_refl scope, eq_refl node),
    λ m g d. ground (arith, eq_refl scope),
  ),
  λ l h. (ground arith, ground arith, ground arith, ground arith),
  λ h. ground arith,
)

pub owner_of_acquired :
    (server : Server) (now : ℕ) (scope node : String) (ttl : ℕ) (t : Leases) (l : Lease)
    → (acquire_or_resume server now scope node ttl t).1 ≡ acquired l true
    → l.owner_node ≡ node
unfolding acquire_or_resume
owner_of_acquired server now scope node ttl t l h = elim (Option-cases (t scope)) [
  | inl e ↦ ground (arith, e)
  | inr (a, e) ↦ ground (arith, e, eq_iff a.owner_node node)
]
