-- ===== src/Meta/Scope/Walking.antt =====
-- The scope of an inode is its first-level ancestor, with the memo and without.
use memorylayer_storage.Prelude.{
  ℕ, zero, suc, ltb, ◌+◌, ◌≡◌, ◌≢◌, ◌≤◌, refl, ap, sym, ◌∙◌, subst, true, false, some, ◌==◌, arith,
  Bool-cases, Option-cases, inl, inr,
}
use memorylayer_storage.Meta.Scope.{
  root_inode, ScopeKey, ino_scope, ParentRow, parent_row, anchored, is_anchor, walk_up, ScopeCache,
  scope_of,
}

-- The inode that `n` steps from a child to its parent lead to.
unfoldable pub climb : (ℕ → ℕ) → ℕ → ℕ → ℕ
climb parent zero i = i
climb parent (suc n) i = climb parent n (parent i)

-- The inode `a` is an entry of the root, and `i` is it or lies under it, `d` levels below: the rows on the
-- way are those of the tree `parent`, and the root is met behind `a` and not before.
pub record IsFirstLevel (parents : ℕ → ParentRow) (parent : ℕ → ℕ) (d i a : ℕ) : Type 0 where
  pub rows : (k : ℕ) → k ≤ d → parents (climb parent k i) ≡ parent_row (parent (climb parent k i))
  pub ends : climb parent d i ≡ a
  pub entry : parent a ≡ 1
  pub below : (k : ℕ) → k ≤ d → climb parent k i ≢ 1

module _ (parents : ℕ → ParentRow) where
  -- An inode that is its own parent leads to no other.
  climb_loop : (parent : ℕ → ℕ) (n i : ℕ) → parent i ≡ i → climb parent n i ≡ i
  unfolding climb
  climb_loop parent zero i h = refl
  climb_loop parent (suc n) i h =
      subst (λ x. climb parent n x ≡ i) (sym h) (climb_loop parent n i h)

  deeper :
      (parent : ℕ → ℕ) (d i a : ℕ)
      → IsFirstLevel parents parent (suc d) i a
      → IsFirstLevel parents parent d (parent i) a
  unfolding climb
  deeper parent d i a v = record {
    rows = λ k h. v.rows (suc k) (omega (arith, h));
    ends = v.ends;
    entry = v.entry;
    below = λ k h. v.below (suc k) (omega (arith, h));
  }

  -- The depth of an inode is fuel enough for its walk.
  walk_up-IsFirstLevel :
      (parent : ℕ → ℕ) (n inode d c a : ℕ)
      → IsFirstLevel parents parent d c a
      → ltb d n ≡ true
      → walk_up n parents inode c ≡ anchored (ino_scope a)
  unfolding walk_up climb
  walk_up-IsFirstLevel parent zero inode d c a v h = absurd (ground (arith, h))
  walk_up-IsFirstLevel parent (suc n) inode zero c a v h =
      let here : c ≡ a = v.ends in
      let row : parents c ≡ parent_row 1 =
        v.rows 0 (omega arith) ∙ ap parent_row (ap parent here ∙ v.entry) in
      rw (walk_up, row, here) refl
  walk_up-IsFirstLevel parent (suc n) inode (suc d) c a v h =
      let row : parents c ≡ parent_row (parent c) = v.rows 0 (omega arith) in
      let apart : parent c ≢ 1 = v.below 1 (omega arith) in
      let moves : parent c ≢ c = λ (e : parent c ≡ c).
        let here : c ≡ a = sym (climb_loop parent (suc d) c e) ∙ v.ends in
        apart (ap parent here ∙ v.entry) in
      let on : is_anchor (parent c) c ≡ false = ground (arith, apart, moves) in
      rw (walk_up, row, on)
        (walk_up-IsFirstLevel parent n inode d (parent c) a (deeper parent d c a v)
          (ground (arith, h)))

  module _ (parent : ℕ → ℕ) where
    one_entry :
        (d e i a b : ℕ)
        → IsFirstLevel parents parent d i a
        → IsFirstLevel parents parent e i b
        → a ≡ b
    one_entry d e i a b v w =
        let n = d + suc e in
        let left = walk_up-IsFirstLevel parent n i d i a v (ground arith) in
        let right = walk_up-IsFirstLevel parent n i e i b w (ground arith) in
        ground (arith, left, right)

    -- Each key of the memo is that of the entry of the root that the inode lies under.
    abbrev pub IsMemo : ScopeCache → Type 0
    IsMemo cache =
        (i : ℕ) (key : ScopeKey)
        → cache i ≡ some key
        → (d a : ℕ) → IsFirstLevel parents parent d i a
        → key ≡ ino_scope a

    -- With more fuel than the inode is deep, and rows that are those of a tree on the way from the inode
    -- to the root, `scopeOf` returns the key of the entry of the root that the inode is or lies under,
    -- whether a right memo has the inode or not, and leaves a right memo.
    pub scope_of-IsFirstLevel :
        (d n i a : ℕ) (cache : ScopeCache)
        → IsFirstLevel parents parent d i a
        → ltb d n ≡ true
        → IsMemo cache
        → ((scope_of n parents i cache).1 ≡ anchored (ino_scope a))
          × IsMemo (scope_of n parents i cache).0
    unfolding scope_of climb
    scope_of-IsFirstLevel d n i a cache u deep v =
        let apart : i ≢ 1 = u.below 0 (omega arith) in
        let below_root : (i == root_inode) ≡ false = ground (arith, apart) in
        elim (Option-cases (cache i)) [
          | inr (key, e) ↦ rw (scope_of, below_root, e) (ap anchored (v i key e d a u), v)
          | inl none_eq ↦
              let own = walk_up-IsFirstLevel parent n i d i a u deep in
              rw (scope_of, below_root, none_eq, own)
                (
                  refl,
                  λ j key e d' b w. elim (Bool-cases (i == j)) [
                    | inl mine ↦
                        let here : j ≡ i = ground (arith, mine) in
                        let same : ino_scope a ≡ key = ground (arith, e, mine) in
                        let w' = subst (λ x. IsFirstLevel parents parent d' x b) here w in
                        sym same ∙ ap ino_scope (one_entry d d' i a b u w')
                    | inr other ↦ v j key (ground (arith, e, other)) d' b w
                  ],
                )
        ]
