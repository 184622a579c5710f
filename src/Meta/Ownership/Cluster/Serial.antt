-- ===== src/Meta/Ownership/Cluster/Serial.antt =====
-- The order of the writes that any number of nodes commit, and what their caches know.
use Prim.Native.String.{String}
use text.Mathlib.Text.{◌==◌ as str_eq}
use text.Mathlib.TextEquality.{eq_iff}
use text.Mathlib.TextPositions.{eq_refl}
use memorylayer_storage.Prelude.{
  ℕ, ◌+◌, ◌≤◌, ◌≡◌, refl, sym, ap, ◌∙◌, Bool, true, false, Option, none, some, List, [], ◌∷◌, arith,
  All, Bool-cases, Option-cases, inl, inr, ◌↔◌,
}
use memorylayer_storage.Meta.Errno.{Server}
use memorylayer_storage.Meta.Ownership.{
  Lease, Leases, owned_at, acquire_or_resume, Acquired, acquired, failed, refresh, check_fence,
}
use memorylayer_storage.Meta.Ownership.Fencing.{
  Follows, Follows-trans, Later, Later-refl, acquire_or_resume-Later, acquire_or_resume_outcome,
  owner_of_acquired, refresh-Later, release_ownership-Later,
}
use memorylayer_storage.Meta.Ownership.Owner.{
  HeldLease, Held, Clock, nothing_held, put_held, cached, ensure, settle, refresh_scope, refreshed,
  milliseconds,
}
use memorylayer_storage.Meta.Ownership.Cluster.{
  Write, Cluster, put_owner, after_fence, passes, after_ensure, after_refresh, Step, ensures,
  refreshes, releases, stops, writes, Reach, here, next,
}

-- The token of a node for a scope, as a lease.
abbrev pub token : String → ℕ → Lease
token node gen = record { owner_node = node; expires = 0; generation = gen }

-- The table has a row at or after the token.
abbrev pub Recorded : Leases → String → String → ℕ → Type 0
Recorded t node scope gen = (b : Lease) × (t scope ≡ some b) × Follows (token node gen) b

Recorded-Later :
    (t u : Leases) (node scope : String) (gen : ℕ)
    → Later t u
    → Recorded t node scope gen
    → Recorded u node scope gen
Recorded-Later t u node scope gen f (b, e, v) =
    let (d, p, w) = f scope b e in (d, p, Follows-trans v w)

-- Two writes of one scope: the earlier has the smaller generation, or the same one and the same node.
abbrev pub InOrder : Write → Write → Type 0
InOrder w earlier =
    earlier.scope ≡ w.scope → (earlier.gen ≤ w.gen) × (earlier.gen ≡ w.gen → earlier.node ≡ w.node)

abbrev pub IsSerial : List Write → Type 0
IsSerial [] = Unit
IsSerial (w ∷ log) = All (InOrder w) log × IsSerial log

pub record Inv (c : Cluster) : Type 0 where
  pub cache :
      (node scope : String) (l : HeldLease)
      → c.owners node scope ≡ some l
      → Recorded c.table node scope l.gen
  pub logged : All (λ w. Recorded c.table w.node w.scope w.gen) c.log
  pub serial : IsSerial c.log

Recorded-All :
    (t u : Leases)
    → Later t u
    → (ws : List Write) → All (λ w. Recorded t w.node w.scope w.gen) ws
    → All (λ w. Recorded u w.node w.scope w.gen) ws
Recorded-All t u f [] h = tt
Recorded-All t u f (w ∷ ws) h =
    (Recorded-Later t u w.node w.scope w.gen f h.0, Recorded-All t u f ws h.1)

CacheOf : Leases → String → Held → Type 0
CacheOf t node held =
    (scope : String) (l : HeldLease) → held scope ≡ some l → Recorded t node scope l.gen

-- A table that only moves on keeps the invariant, with any caches that it backs.
moves_on :
    (c : Cluster) (t : Leases) (node : String) (held : Held)
    → Later c.table t
    → CacheOf t node held
    → Inv c
    → Inv (record c { table = t; owners = put_owner node held c.owners })
unfolding CacheOf
moves_on c t node held f own v = record {
  cache = λ n s l e. elim (Bool-cases (str_eq node n)) [
    | inl h ↦ rw (← (eq_iff node n).0 h) (own s l (rw h at e))
    | inr h ↦ Recorded-Later c.table t n s l.gen f (v.cache n s l (rw h at e))
  ];
  logged = Recorded-All c.table t f c.log v.logged;
  serial = v.serial;
}

settle_cases {ℓ} :
    (P : Held → Leases → Type ℓ) (expiry : ℕ) (scope : String) (held : Held) (t : Leases)
    (r : Acquired)
    → P held t
    → ((l : Lease)
        → r ≡ acquired l true
        → P (put_held scope (some (record { gen = l.generation; local_expiry = expiry })) held) t)
    → P (settle expiry scope held t r).held (settle expiry scope held t r).table
settle_cases P expiry scope held t failed same won = same
settle_cases P expiry scope held t (acquired l true) same won = won l refl
settle_cases P expiry scope held t (acquired l false) same won = same

only_table : (c : Cluster) (t : Leases) → Later c.table t → Inv c → Inv (record c { table = t })
only_table c t f v = record {
  cache = λ n s l e. Recorded-Later c.table t n s l.gen f (v.cache n s l e);
  logged = Recorded-All c.table t f c.log v.logged;
  serial = v.serial;
}

ensure_cases {ℓ} :
    (P : Held → Leases → Type ℓ) (server : Server) (clock : Clock) (node scope : String) (ttl : ℕ)
    (held : Held) (t : Leases)
    → P held t
    → P held
        (acquire_or_resume server (milliseconds clock.inside) scope node (milliseconds ttl) t).0
    → ((l : Lease)
        → (acquire_or_resume server (milliseconds clock.inside) scope node (milliseconds ttl) t).1
          ≡ acquired l true
        → P
            (put_held scope
              (some (record { gen = l.generation; local_expiry = clock.after + ttl }))
              held)
            (acquire_or_resume server
              (milliseconds clock.inside)
              scope
              node
              (milliseconds ttl)
              t).0)
    → P
        (ensure server clock node scope ttl held t).held
        (ensure server clock node scope ttl held t).table
unfolding ensure
ensure_cases P server clock node scope ttl held t same lost won =
    elim (Option-cases (cached clock.before (held scope))) [
      | inr (gen, e) ↦ rw (e, ensure) same
      | inl e ↦ rw (e, ensure) (settle_cases P (clock.after + ttl) scope held _ _ lost won)
    ]

-- An entry that replaces another is backed, and so are the rest.
put_held-CacheOf :
    (t : Leases) (node scope : String) (entry : Option HeldLease) (held : Held)
    → ((l : HeldLease) → entry ≡ some l → Recorded t node scope l.gen)
    → CacheOf t node held
    → CacheOf t node (put_held scope entry held)
unfolding CacheOf
put_held-CacheOf t node scope entry held new old s l e = elim (Bool-cases (str_eq scope s)) [
  | inl h ↦ rw (← (eq_iff scope s).0 h) (new l (rw h at e))
  | inr h ↦ old s l (rw h at e)
]

CacheOf-Later :
    (t u : Leases) (node : String) (held : Held)
    → Later t u
    → CacheOf t node held
    → CacheOf u node held
unfolding CacheOf
CacheOf-Later t u node held f old s l e = Recorded-Later t u node s l.gen f (old s l e)

ensure-Inv :
    (server : Server) (clock : Clock) (node scope : String) (ttl : ℕ) (c : Cluster)
    → Inv c
    → Inv (after_ensure server clock node scope ttl c)
unfolding CacheOf
ensure-Inv server clock node scope ttl c v =
    ensure_cases (λ held t. Inv (record c { table = t; owners = put_owner node held c.owners }))
      server clock node scope ttl (c.owners node) c.table
      (moves_on c c.table node (c.owners node) (Later-refl c.table) (v.cache node) v)
      (moves_on c t' node (c.owners node) f
        (CacheOf-Later c.table t' node (c.owners node) f (v.cache node)) v)
      (λ l e.
        moves_on c t' node _ f
          (put_held-CacheOf t' node scope _ (c.owners node)
            (λ k p. (
              l,
              ((acquire_or_resume_outcome server (milliseconds clock.inside) scope node
                    (milliseconds ttl) c.table).0
                  l e).0,
              record {
                grows = ground (arith, p);
                same = λ _. sym (owner_of_acquired server _ scope node _ c.table l e);
              },
            ))
            (CacheOf-Later c.table t' node (c.owners node) f (v.cache node)))
          v)
  where
    t' : Leases
    t' =
        (acquire_or_resume server (milliseconds clock.inside) scope node (milliseconds ttl)
          c.table).0

    f : Later c.table t'
    f =
        acquire_or_resume-Later server (milliseconds clock.inside) scope node (milliseconds ttl)
          c.table

-- The refreshed entry keeps its generation.
refreshed_gen :
    (expiry : ℕ) (r : Option Bool) (entry : Option HeldLease) (k : HeldLease)
    → refreshed expiry r entry ≡ some k
    → (l : HeldLease) × (entry ≡ some l) × (l.gen ≡ k.gen)
refreshed_gen expiry none none k h = cc
refreshed_gen expiry none (some l) k h = (l, refl, ground (arith, h))
refreshed_gen expiry (some true) none k h = cc
refreshed_gen expiry (some true) (some l) k h = (l, refl, ground (arith, h))
refreshed_gen expiry (some false) entry k h = cc

refresh-Inv :
    (server : Server) (clock : Clock) (node scope : String) (gen ttl : ℕ) (c : Cluster)
    → Inv c
    → Inv (after_refresh server clock node scope gen ttl c)
unfolding refresh_scope CacheOf
refresh-Inv server clock node scope gen ttl c v =
    moves_on c _ node _ f
      (put_held-CacheOf _ node scope _ (c.owners node)
        (λ k p.
          let (l, e, g) = refreshed_gen _ _ (c.owners node scope) k p in
          rw (← g) (CacheOf-Later c.table _ node (c.owners node) f (v.cache node) scope l e))
        (CacheOf-Later c.table _ node (c.owners node) f (v.cache node)))
      v
  where
    f :
        Later c.table
          (refresh server (milliseconds clock.inside) scope node gen (milliseconds ttl) c.table).0
    f = refresh-Later server (milliseconds clock.inside) scope node gen (milliseconds ttl) c.table

-- A write that passes the fence is the owner's, at the generation of the row.
passes_row :
    (server : Server) (w : Write) (t : Leases)
    → passes server w t ≡ true
    → (b : Lease) × (t w.scope ≡ some b) × (b.owner_node ≡ w.node) × (b.generation ≡ w.gen)
unfolding check_fence
passes_row server w t h = elim (Option-cases (t w.scope)) [
  | inl e ↦ absurd (ground (arith, e))
  | inr (b, e) ↦
      (b, e, ground (arith, eq_iff b.owner_node w.node), ground (arith, eq_iff b.owner_node w.node))
]

InOrder-All :
    (t : Leases) (w : Write) (b : Lease) (log : List Write)
    → t w.scope ≡ some b
    → b.owner_node ≡ w.node
    → b.generation ≡ w.gen
    → All (λ u. Recorded t u.node u.scope u.gen) log
    → All (InOrder w) log
InOrder-All t w b [] e o g h = tt
InOrder-All t w b (u ∷ log) e o g h = (
  λ s.
      let (d, p, follows) = h.0 in
      let same : d ≡ b = ground (arith, p, e, s, ap t s) in
      (
        ground (arith, follows.grows, same),
        λ k. follows.same (ground (arith, same, g, k)) ∙ ap (λ (x : Lease). x.owner_node) same ∙ o,
      ),
  InOrder-All t w b log e o g h.1,
)

write-Inv :
    (server : Server) (w : Write) (c : Cluster)
    → Inv c
    → Inv (record c { log = after_fence (passes server w c.table) w c.log })
write-Inv server w c v = elim (Bool-cases (passes server w c.table)) [
  | inr no_pass ↦ rw no_pass v
  | inl passed ↦
      let (b, e, o, g) = passes_row server w c.table passed in
      rw passed (record {
        cache = v.cache;
        logged = ((b, e, record { grows = omega arith; same = λ _. sym o }), v.logged);
        serial = (InOrder-All c.table w b c.log e o g v.logged, v.serial);
      })
]

Step-Inv : {c d : Cluster} → Step c d → Inv c → Inv d
unfolding CacheOf
Step-Inv {c} (ensures server clock node scope ttl) v = ensure-Inv server clock node scope ttl c v
Step-Inv {c} (refreshes server clock node scope gen ttl) v =
    refresh-Inv server clock node scope gen ttl c v
Step-Inv {c} (releases server scope node gen) v =
    only_table c _ (release_ownership-Later server scope node gen c.table) v
Step-Inv {c} (stops node) v =
    moves_on c c.table node nothing_held (Later-refl c.table) (λ s l e. cc) v
Step-Inv {c} (writes server w) v = write-Inv server w c v

Reach-Inv : {c : Cluster} → Reach c → Inv c
Reach-Inv here = record { cache = λ n s l e. cc; logged = tt; serial = tt }
Reach-Inv (next r st) = Step-Inv st (Reach-Inv r)

-- Whatever the nodes call, in any order, with any clocks, whatever statements the server refuses and
-- whatever generations the writers present: of two committed writes to one scope the later has the
-- larger generation, or the same generation and the same node.
pub Reach-IsSerial : {c : Cluster} → Reach c → IsSerial c.log
Reach-IsSerial r = (Reach-Inv r).serial

-- A node whose cached generation passes the fence is the owner in the table, and a cached generation
-- is never ahead of the table's: a cache that is out of date costs a refused write and no more.
pub cache_backed :
    {c : Cluster} (node scope : String) (l : HeldLease)
    → Reach c
    → c.owners node scope ≡ some l
    → (b : Lease) × (c.table scope ≡ some b)
      × (l.gen ≤ b.generation)
      × (l.gen ≡ b.generation ↔ (owned_at node l.gen (c.table scope) ≡ true))
cache_backed {c} node scope l r e =
    let (b, p, f) = (Reach-Inv r).cache node scope l e in
    (b, p, f.grows, (λ g. ground (arith, p, g, f.same g, eq_refl node), λ h. ground (arith, p, h)))
