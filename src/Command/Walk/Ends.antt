-- ===== src/Command/Walk/Ends.antt =====
-- fsFindWalk and fsGrepWalk come to an end: a path has at most 256 names, and a child has one more
-- than its directory.
use redis_fs.Base.{
  ℕ, zero, suc, ◌+◌, ◌≡◌, refl, ◌∙◌, ◌≤◌, ◌<◌, Bool, Option, some, List, [], ◌∷◌, ◌++◌, All,
  All-append, length, length-append, arith, Option-cases, inl, inr, c_str, c_str_of_NoNul, ap,
}
use redis_fs.Base.ByteStrings.{Bytes}
use redis_fs.Dict.{DictApi}
use redis_fs.Inode.{Inode, InodeType, Payload}
use redis_fs.Path.{join, max_depth}
use redis_fs.Path.Normal.{IsName, path_of}
use redis_fs.Path.Plain.{IsCName, path_of-NoNul}
use redis_fs.Path.Depth.{join-name_inverse}
use redis_fs.Fs.{Fs, lookup}
use redis_fs.Text.Grep.{grep_file}
use redis_fs.Command.Remove.{children}
use redis_fs.Command.Walk.{Hit, both, each_child, find_here, hits_here, walk, find_walk, grep_walk}

pub both-Returns :
    {A : Type 0} (x y : Option (List A))
    → (a : List A) × (x ≡ some a)
    → (a : List A) × (y ≡ some a)
    → (a : List A) × (both x y ≡ some a)
both-Returns x y (a, e) (b, k) = (a ++ b, rw (e, k))

pub All-fst : (i : List Bytes) → All IsCName i → All IsName i
All-fst [] h = tt
All-fst (w ∷ i) h = (h.0.0, All-fst i h.1)

module _ (D : DictApi Inode) where
  -- The children of every directory have names.
  abbrev pub HasCNames : Fs D → Type 0
  HasCNames fs = (p : Bytes) (i : Inode) → lookup D fs p ≡ some i → All IsCName (children i.payload)

  module _ {A : Type 0} where
    -- The loop over the children ends if the call for each child does.
    pub each_child-Ends :
        (rec : Bytes → Option (List A)) (i : List Bytes)
        → All IsCName i
        → length i ≤ max_depth
        → ((w : Bytes)
            → IsCName w
            → suc (length i) ≤ max_depth
            → (a : List A) × (rec (path_of (i ++ (w ∷ []))) ≡ some a))
        → (cs : List Bytes) → All IsCName cs
        → (a : List A) × (each_child rec (path_of i) cs ≡ some a)
    unfolding each_child
    each_child-Ends rec i names d ends [] k = ([], refl)
    each_child-Ends rec i names d ends (w ∷ cs) k =
        let cut : c_str w ≡ w = c_str_of_NoNul w k.0.1 in
        let rest = each_child-Ends rec i names d ends cs k.1 in
        elim (Option-cases (join (path_of i) w)) [
          | inl e ↦ rw (each_child, cut, e) rest
          | inr (child, e) ↦
              let (is, room) = join-name_inverse i w child (All-fst i names) k.0.0 d e in
              let clean =
                path_of-NoNul (i ++ (w ∷ [])) (All-append IsCName i (w ∷ []) names (k.0, tt)) in
              let (a, ended) = ends w k.0 room in
              let here : rec (c_str child) ≡ some a =
                ap rec (ap c_str is ∙ c_str_of_NoNul (path_of (i ++ (w ∷ []))) clean) ∙ ended in
              rw (each_child, cut, e)
                (both-Returns (rec (c_str child)) (each_child rec (path_of i) cs) (a, here) rest)
        ]

    pub walk-Ends :
        (here : Bytes → Payload → List A) (f : ℕ) (i : List Bytes) (fs : Fs D)
        → All IsCName i
        → length i ≤ max_depth
        → max_depth < f + length i
        → HasCNames fs
        → (a : List A) × (walk D here f fs (path_of i) ≡ some a)
    unfolding walk
    walk-Ends here zero i fs names d enough h = absurd (omega arith)
    walk-Ends here (suc f) i fs names d enough h = elim (Option-cases (lookup D fs (path_of i))) [
      | inl e ↦ rw (walk, e) ([], refl)
      | inr (inode, e) ↦
          rw (walk, e)
            (both-Returns (some (here (path_of i) inode.payload))
              (each_child (walk D here f fs) (path_of i) (children inode.payload))
              (here (path_of i) inode.payload, refl)
              (each_child-Ends (walk D here f fs) i names d
                (λ w k room.
                  walk-Ends here f (i ++ (w ∷ [])) fs (All-append IsCName i (w ∷ []) names (k, tt))
                    (omega (arith, length-append i (w ∷ [])))
                    (omega (arith, length-append i (w ∷ []))) h)
                (children inode.payload) (h (path_of i) inode e)))
    ]

  -- If the children of every directory have names with no NUL, fsFindWalk and fsGrepWalk come to an
  -- end from the path of such names: calls that are 257 deep are enough.
  pub walks_end :
      (fs : Fs D) (i : List Bytes) (nocase : Bool) (pattern : Bytes) (filter : Option InodeType)
      → All IsCName i
      → length i ≤ max_depth
      → HasCNames fs
      → ((ps : List Bytes) × (find_walk D 257 pattern filter fs (path_of i) ≡ some ps))
        × ((hs : List Hit) × (grep_walk D 257 nocase pattern fs (path_of i) ≡ some hs))
  unfolding find_walk grep_walk
  walks_end fs i nocase pattern filter names d h = (
    walk-Ends (find_here pattern filter) 257 i fs names d (omega arith) h,
    walk-Ends (hits_here (grep_file nocase pattern)) 257 i fs names d (omega arith) h,
  )
