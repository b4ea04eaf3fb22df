-- ===== src/Command/Walk/Found.antt =====
-- fsFindWalk on a tree of paths comes to every path.
use mathlib.Core.Option.{some-injective}
use mathlib.Core.List.{append-nil, append_assoc}
use redis_fs.Base.{
  ℕ, zero, suc, ◌≤◌, ◌≡◌, refl, sym, ap, ◌∙◌, true, false, Option, some, List, [], ◌∷◌, ◌++◌, All,
  arith, Bool-cases, Option-cases, inl, inr, length, length-append, bytes_eq, bytes_eq_refl,
  bytes_eq→eq, NoNul, c_str, c_str_of_NoNul,
}
use redis_fs.Base.ByteStrings.{Bytes}
use redis_fs.Dict.{DictApi}
use redis_fs.Inode.{Inode, InodeType, has_name}
use redis_fs.Path.{root, join, max_depth, is_root, render}
use redis_fs.Path.Normal.{IsName, path_of, path_of-eq-render}
use redis_fs.Path.Parent.{snoc_cases, join-name, parent-snoc, base_name-snoc, render-snoc}
use redis_fs.Path.Plain.{IsCName, path_of-NoNul, is_root-joined, path_names}
use redis_fs.Fs.{Fs, lookup}
use redis_fs.Command.Remove.{children}
use redis_fs.Command.Tree.Shapes.{Shape, branch, shape, IsTree, tree-IsCPath}
use redis_fs.Command.Tree.Changes.{shapes, shape_at}
use redis_fs.Command.Tree.Deleted.{children_names, branch-children}
use redis_fs.Command.Walk.{each_child, find_here, walk, find_walk}
use redis_fs.Command.Walk.Ends.{walks_end}
use redis_fs.Command.Walk.Finds.{both_parts, has_name-both, has_name-find_here, passes, walk_sound}

path_of-snoc : (i : List Bytes) (w : Bytes) → path_of (i ++ (w ∷ [])) ≡ render (i ++ (w ∷ []))
path_of-snoc i w = sym (path_of-eq-render (i ++ (w ∷ [])) (omega (arith, length-append i (w ∷ []))))

All-last : (i : List Bytes) (w : Bytes) (js : List Bytes) → All IsCName (i ++ (w ∷ js)) → IsCName w
All-last [] w js h = h.0
All-last (c ∷ i) w js h = All-last i w js h.1

All-front : (i js : List Bytes) → All IsCName (i ++ js) → All IsCName i
All-front [] js h = tt
All-front (c ∷ i) js h = (h.0, All-front i js h.1)

All-names : (i : List Bytes) → All IsCName i → All IsName i
All-names [] h = tt
All-names (c ∷ i) h = (h.0.0, All-names i h.1)

each_child_complete :
    (rec : Bytes → Option (List Bytes)) (p w child q : Bytes)
    → NoNul w
    → join p w ≡ some child
    → ((zs : List Bytes) → rec (c_str child) ≡ some zs → has_name zs q ≡ true)
    → (cs ys : List Bytes) → each_child rec p cs ≡ some ys
    → has_name cs w ≡ true
    → has_name ys q ≡ true
unfolding each_child has_name
each_child_complete rec p w child q plain j h [] ys e k = cc k
each_child_complete rec p w child q plain j h (c ∷ cs) ys e k =
    elim (Option-cases (join p (c_str c))) [
      | inl m ↦ elim (Bool-cases (bytes_eq c w)) [
        | inl same ↦
            let cut : c_str c ≡ w = ap c_str (bytes_eq→eq c w same) ∙ c_str_of_NoNul w plain in
            cc (ap (join p) cut, j, m)
        | inr other ↦
            each_child_complete rec p w child q plain j h cs ys (rw (each_child, m) at e)
              (rw other at k)
      ]
      | inr (found, m) ↦
          let (xs, zs, here, rest, is) =
            both_parts (rec (c_str found)) (each_child rec p cs) ys (rw (each_child, m) at e) in
          elim (Bool-cases (bytes_eq c w)) [
            | inl same ↦
                let cut : c_str c ≡ w = ap c_str (bytes_eq→eq c w same) ∙ c_str_of_NoNul w plain in
                let at : found ≡ child = some-injective found child (sym m ∙ ap (join p) cut ∙ j) in
                let in_front = h xs (ap (λ r. rec (c_str r)) (sym at) ∙ here) in
                rw (← is, has_name-both xs zs q, in_front) refl
            | inr other ↦
                let behind =
                  each_child_complete rec p w child q plain j h cs zs rest (rw other at k) in
                rw (← is, has_name-both xs zs q, behind) (ground arith)
          ]
    ]

module _ (D : DictApi Inode) (fs : Fs D) (t : IsTree (shapes D fs)) where
  -- What is there is listed.
  listed_snoc :
      (i : List Bytes) (w : Bytes) (u : Shape)
      → All IsName (i ++ (w ∷ []))
      → IsName w
      → shapes D fs (path_of (i ++ (w ∷ []))) ≡ some u
      → (cs : List Bytes) × (shapes D fs (path_of i) ≡ some (branch cs)) × (has_name cs w ≡ true)
  listed_snoc i w u names name e =
      let q = render (i ++ (w ∷ [])) in
      let here : shapes D fs q ≡ some u = ap (shapes D fs) (sym (path_of-snoc i w)) ∙ e in
      let not_top : is_root q ≡ false =
        rw (render-snoc i w) (is_root-joined (render i) w name.piece.0) in
      let (_, (cs, dir_at, listed)) = t.above q u here not_top in
      (
        cs,
        ap (shapes D fs) (sym (parent-snoc i w name)) ∙ dir_at,
        ap (has_name cs) (sym (base_name-snoc i w name)) ∙ listed,
      )

  -- Every directory on the way to a path is there, and lists the next name.
  on_the_way :
      (n : ℕ) (js i : List Bytes) (w : Bytes) (u : Shape)
      → length js ≤ n
      → All IsCName (i ++ (w ∷ js))
      → shapes D fs (path_of (i ++ (w ∷ js))) ≡ some u
      → (cs : List Bytes) × (shapes D fs (path_of i) ≡ some (branch cs)) × (has_name cs w ≡ true)
  on_the_way n [] i w u l names e =
      listed_snoc i w u (All-names (i ++ (w ∷ [])) names) (All-last i w [] names).0 e
  on_the_way zero (j ∷ js) i w u l names e = absurd (omega arith)
  on_the_way (suc n) (j ∷ js) i w u l names e =
      let (ks, v, is) = snoc_cases j js in
      let whole : i ++ (w ∷ j ∷ js) ≡ (i ++ (w ∷ ks)) ++ (v ∷ []) =
        ap (λ l. i ++ (w ∷ l)) is ∙ sym (append_assoc i (w ∷ ks) (v ∷ [])) in
      let named : All IsCName ((i ++ (w ∷ ks)) ++ (v ∷ [])) = rw (← whole) names in
      let (ds, at, _) =
        listed_snoc (i ++ (w ∷ ks)) v u (All-names ((i ++ (w ∷ ks)) ++ (v ∷ [])) named)
          (All-last (i ++ (w ∷ ks)) v [] named).0
          (ap (λ l. shapes D fs (path_of l)) (sym whole) ∙ e) in
      on_the_way n ks i w (branch ds) (omega (arith, ap length is, length-append ks (v ∷ [])))
        (All-front (i ++ (w ∷ ks)) (v ∷ []) named) at

  module _ (pattern : Bytes) (filter : Option InodeType) where
    -- From a directory above it, the walk comes to a path that passes.
    walk_complete :
        (f : ℕ) (js i : List Bytes) (inode : Inode) (ps : List Bytes)
        → All IsCName (i ++ js)
        → length (i ++ js) ≤ max_depth
        → lookup D fs (path_of (i ++ js)) ≡ some inode
        → passes D pattern filter fs (some inode) (path_of (i ++ js)) ≡ true
        → walk D (find_here pattern filter) f fs (path_of i) ≡ some ps
        → has_name ps (path_of (i ++ js)) ≡ true
    unfolding walk
    walk_complete zero js i inode ps names d there ok e = cc e
    walk_complete (suc f) [] i inode ps names d there ok e =
        let whole : i ++ [] ≡ i = append-nil i in
        let l : lookup D fs (path_of i) ≡ some inode =
          ap (λ r. lookup D fs (path_of r)) (sym whole) ∙ there in
        let (xs, ys, here, rest, is) =
          both_parts (some (find_here pattern filter (path_of i) inode.payload))
            (each_child (walk D (find_here pattern filter) f fs) (path_of i)
              (children inode.payload))
            ps (rw (walk, l) at e) in
        let in_front : has_name xs (path_of i) ≡ true =
          ap (λ l. has_name l (path_of i))
            (sym (some-injective (find_here pattern filter (path_of i) inode.payload) xs here))
          ∙ has_name-find_here D pattern filter fs (path_of i) (path_of i) inode.payload
          ∙ rw (rw whole at ok, bytes_eq_refl (path_of i)) refl in
        rw (whole, ← is, has_name-both xs ys (path_of i), in_front) refl
    walk_complete (suc f) (w ∷ js) i inode ps names d there ok e =
        let q = path_of (i ++ (w ∷ js)) in
        let (cs, at, listed) =
          on_the_way (length js) js i w (shape inode.payload) (omega arith) names
            (ap shape_at there) in
        let name = All-last i w js names in
        let whole : (i ++ (w ∷ [])) ++ js ≡ i ++ (w ∷ js) = append_assoc i (w ∷ []) js in
        let room : suc (length i) ≤ max_depth = omega (arith, d, length-append i (w ∷ js)) in
        let joins : join (path_of i) w ≡ some (path_of (i ++ (w ∷ []))) =
          join-name i w (All-names i (All-front i (w ∷ js) names)) name.0 room
          ∙ ap (λ r. some r) (sym (path_of-snoc i w)) in
        let plain : NoNul (path_of (i ++ (w ∷ []))) =
          path_of-NoNul (i ++ (w ∷ [])) (All-front (i ++ (w ∷ [])) js (rw whole names)) in
        let next =
          λ (zs : List Bytes)
              (k : walk D (find_here pattern filter) f fs (c_str (path_of (i ++ (w ∷ []))))
                ≡ some zs).
            walk_complete f js (i ++ (w ∷ [])) inode zs (rw whole names) (rw whole d)
              (rw whole there) (rw whole ok)
              (ap (walk D (find_here pattern filter) f fs)
                  (sym (c_str_of_NoNul (path_of (i ++ (w ∷ []))) plain))
                ∙ k) in
        elim (Option-cases (lookup D fs (path_of i))) [
          | inl l ↦ cc (ap shape_at l, at)
          | inr (dir_inode, l) ↦
              let is_dir_of : children dir_inode.payload ≡ cs =
                branch-children dir_inode.payload cs (
                  some-injective (shape dir_inode.payload) (branch cs)
                    (sym (ap shape_at l) ∙ at)) in
              let (xs, ys, here, rest, is) =
                both_parts (some (find_here pattern filter (path_of i) dir_inode.payload))
                  (each_child (walk D (find_here pattern filter) f fs) (path_of i)
                    (children dir_inode.payload))
                  ps (rw (walk, l) at e) in
              let behind : has_name ys q ≡ true =
                each_child_complete (walk D (find_here pattern filter) f fs) (path_of i) w
                  (path_of (i ++ (w ∷ []))) q name.1 joins (λ zs k. rw whole at (next zs k))
                  (children dir_inode.payload) ys rest (rw is_dir_of listed) in
              rw (← is, has_name-both xs ys q, behind) (ground arith)
        ]

    -- If the paths are a tree, fsFindWalk from "/" comes to an end, and lists a path exactly if there is
    -- an inode at it whose name matches the pattern and whose type passes the filter.
    pub find_walk_lem :
        (ps : List Bytes) × (find_walk D 257 pattern filter fs root ≡ some ps)
        × ((q : Bytes) → has_name ps q ≡ passes D pattern filter fs (lookup D fs q) q)
    unfolding find_walk
    find_walk_lem =
        let ((ps, e), _) =
          walks_end D fs [] false pattern filter tt (omega arith)
            (λ p i k. children_names D fs p i t k) in
        (ps, e, λ q. exactly ps e q)
      where
        exactly :
            (ps : List Bytes)
            → walk D (find_here pattern filter) 257 fs root ≡ some ps
            → (q : Bytes) → has_name ps q ≡ passes D pattern filter fs (lookup D fs q) q
        exactly ps e q = elim (Bool-cases (has_name ps q)) [
          | inl k ↦ k ∙ sym (walk_sound D pattern filter fs 257 root q ps e k)
          | inr k ↦ elim (Bool-cases (passes D pattern filter fs (lookup D fs q) q)) [
            | inr m ↦ k ∙ sym m
            | inl m ↦ elim (Option-cases (lookup D fs q)) [
              | inl l ↦ cc (rw l at m)
              | inr (i, l) ↦
                  let (names, named, d, is) =
                    path_names q
                      (tree-IsCPath (shapes D fs) q (shape i.payload) t (ap shape_at l)) in
                  let there : lookup D fs (path_of names) ≡ some i =
                    ap (lookup D fs) (sym is) ∙ l in
                  let ok : passes D pattern filter fs (some i) (path_of names) ≡ true =
                    ap (passes D pattern filter fs (some i)) (sym is) ∙ rw l at m in
                  let found = walk_complete 257 names [] i ps named d there ok e in
                  cc (ap (has_name ps) is, found, k)
            ]
          ]
        ]
