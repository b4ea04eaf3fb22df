-- ===== src/Path/Depth.antt =====
-- fsJoinPath at the depth limit of fsNormalizePath.
use redis_fs.Base.{
  suc, ◌≤◌, ◌≡◌, refl, sym, ap, ◌∙◌, ◌<◌, some, none, List, [], ◌∷◌, ◌++◌, reverse, length,
  length-append, length-reverse, All-append, arith, ltb, false, true, All, Bool-cases, inl, inr,
}
use mathlib.Core.Option.{some-injective}
use mathlib.Core.List.{append-nil}
use redis_fs.Base.ByteStrings.{Bytes}
use redis_fs.Path.{slash, max_depth, Parts, push, finish, join, normalize, render}
use redis_fs.Path.Components.{push_all, normalize-eq-push_all}
use redis_fs.Path.Normal.{IsName, path_of, components-render, push_all_names, path_of-eq-render}
use redis_fs.Path.Parent.{
  join-name, join-relative, normalize_of_components, components-joined, render-snoc,
  byte_at-NoSlash,
}

push_all-snoc :
    (p : Parts) (cs : List Bytes) (w : Bytes) → push_all p (cs ++ (w ∷ [])) ≡ push (push_all p cs) w
unfolding push_all
push_all-snoc p [] w = refl
push_all-snoc p (c ∷ cs) w = push_all-snoc (push p c) cs w

push_full :
    (st : List Bytes) (w : Bytes)
    → IsName w
    → max_depth ≤ length st
    → push (record { stack = st; overflow = false }) w ≡ record { stack = st; overflow = true }
unfolding push
push_full st w n full =
    let no_room : ltb (length st) max_depth ≡ false = ground arith in
    rw (n.not_dot, n.not_dot_dot, no_room)

normalize-full :
    (i : List Bytes) (w : Bytes)
    → All IsName i
    → IsName w
    → length i ≡ max_depth
    → normalize (render (i ++ (w ∷ []))) ≡ none
unfolding finish
normalize-full i w h n full =
    let start : Parts = record { stack = []; overflow = false } in
    let below = push_all_names i [] h (omega arith) in
    normalize-eq-push_all (render (i ++ (w ∷ [])))
    ∙ rw (
      components-render (i ++ (w ∷ [])) (All-append IsName i (w ∷ []) h (n, tt)),
      push_all-snoc start i w,
      below,
      append-nil (reverse i),
      push_full (reverse i) w n (omega (arith, length-reverse i)),
    )

-- A name under a path of 256 names is too deep.
join-full :
    (i : List Bytes) (w : Bytes)
    → All IsName i
    → IsName w
    → length i ≡ max_depth
    → join (path_of i) w ≡ none
join-full i w h n full =
    join-relative (path_of i) w (byte_at-NoSlash w 0 n.piece.1 n.piece.0) n.piece.0
    ∙ normalize_of_components (path_of i ++ (slash ∷ w)) (render i ++ (slash ∷ w))
        (components-joined i w)
    ∙ rw (← render-snoc i w) (normalize-full i w h n full)

-- If a path of names joined with a name is a path, it is one name longer, and not too deep.
pub join-name_inverse :
    (i : List Bytes) (w child : Bytes)
    → All IsName i
    → IsName w
    → length i ≤ max_depth
    → join (path_of i) w ≡ some child
    → (child ≡ path_of (i ++ (w ∷ []))) × (suc (length i) ≤ max_depth)
join-name_inverse i w child h n d e = elim (Bool-cases (ltb (length i) max_depth)) [
  | inl lt ↦
      let room : suc (length i) ≤ max_depth = ground arith in
      let long : 0 < length (i ++ (w ∷ [])) = omega (arith, length-append i (w ∷ [])) in
      (
        some-injective child (path_of (i ++ (w ∷ []))) (
            sym e
            ∙ join-name i w h n room
            ∙ ap (λ p. some p) (path_of-eq-render (i ++ (w ∷ [])) long)),
        room,
      )
  | inr ge ↦ let full : length i ≡ max_depth = ground arith in cc (join-full i w h n full, e)
]
