-- ===== src/Path/Components.antt =====
-- fsNormalizePath against its components: the text is split at slashes, and the pieces that are not
-- empty are pushed in order.
use redis_fs.Base.{
  ℕ, zero, suc, ◌≤◌, ◌≡◌, refl, false, List, [], ◌∷◌, Bool-cases, inl, inr, arith, ◌==◌,
  if◌then◌else◌, length,
}
use redis_fs.Base.ByteStrings.{Bytes}
use redis_fs.Path.{
  slash, skip_slashes, component, after_component, Parts, push, scan, finish, normalize,
}

-- The pieces between slashes, the empty ones too; never an empty list.
abbrev pub cons_head : ℕ → List Bytes → List Bytes
cons_head c [] = (c ∷ []) ∷ []
cons_head c (w ∷ ws) = (c ∷ w) ∷ ws

unfoldable pub split : Bytes → List Bytes
split [] = [] ∷ []
split (c ∷ s) = let ws = split s in if c == slash then [] ∷ ws else cons_head c ws

abbrev pub non_empty : List Bytes → List Bytes
non_empty [] = []
non_empty ([] ∷ ws) = non_empty ws
non_empty ((c ∷ w) ∷ ws) = (c ∷ w) ∷ non_empty ws

unfoldable pub components : Bytes → List Bytes
unfolding split
components s = non_empty (split s)

unfoldable pub push_all : Parts → List Bytes → Parts
unfolding push
push_all p [] = p
push_all p (c ∷ cs) = push_all (push p c) cs

pub components-slash : (s : Bytes) → components (slash ∷ s) ≡ components s
unfolding components
components-slash s = refl

components-skip_slashes : (s : Bytes) → components (skip_slashes s) ≡ components s
unfolding skip_slashes components
components-skip_slashes [] = refl
components-skip_slashes (c ∷ s) = ground (arith, components-skip_slashes s)

-- A text splits after its first component.
pub split-component :
    (s : Bytes)
    → (ws : List Bytes) × (split s ≡ component s ∷ ws)
      × (non_empty ws ≡ components (after_component s))
unfolding split component after_component components
split-component [] = ([], refl, refl)
split-component (c ∷ s) = elim (Bool-cases (c == slash)) [
  | inl e ↦ (split s, rw e, rw e (rw e))
  | inr e ↦ let (ws, p, q) = split-component s in (ws, rw e (rw p), rw e q)
]

length-after_component : (s : Bytes) → length (after_component s) ≤ length s
unfolding after_component
length-after_component [] = omega arith
length-after_component (c ∷ s) = ground (arith, length-after_component s)

-- The bytes that are left after the slashes, if any, begin with a component.
skip_slashes-first : (s : Bytes) (c : ℕ) (r : Bytes) → skip_slashes s ≡ c ∷ r → (c == slash) ≡ false
unfolding skip_slashes
skip_slashes-first [] c r h = cc
skip_slashes-first (d ∷ s) c r h = ground (arith, skip_slashes-first s c r)

length-skip_slashes : (s : Bytes) → length (skip_slashes s) ≤ length s
unfolding skip_slashes
length-skip_slashes [] = omega arith
length-skip_slashes (c ∷ s) = ground (arith, length-skip_slashes s)

-- What a round takes: the next component, and a shorter text.
pub components_round :
    (c : ℕ) (r : Bytes)
    → (c == slash) ≡ false
    → components (c ∷ r) ≡ component (c ∷ r) ∷ components (after_component (c ∷ r))
unfolding components component
components_round c r h = let (ws, p, q) = split-component (c ∷ r) in rw (p, h) (rw q)

pub components-nil : components [] ≡ []
unfolding components
components-nil = refl

length-round :
    (c : ℕ) (r : Bytes) → (c == slash) ≡ false → length (after_component (c ∷ r)) ≤ length r
unfolding after_component
length-round c r h = rw h (length-after_component r)

-- The body of `scan` at a text whose slashes are skipped.
scan_body : (f : ℕ) (t : Bytes) (p : Parts) → Parts
scan_body f [] p = p
scan_body f (c ∷ r) p = scan f (after_component (c ∷ r)) (push p (component (c ∷ r)))

scan-suc : (f : ℕ) (s : Bytes) (p : Parts) → scan (suc f) s p ≡ scan_body f (skip_slashes s) p
unfolding scan scan_body
scan-suc f s p = ground arith

scan-eq-push_all :
    (f : ℕ) (s : Bytes) (p : Parts) → length s ≤ f → scan f s p ≡ push_all p (components s)
unfolding push_all scan scan_body
scan-eq-push_all zero [] p h = rw components-nil
scan-eq-push_all zero (c ∷ s) p h = absurd (omega arith)
scan-eq-push_all (suc f) s p h =
    rw (scan-suc, ← components-skip_slashes s)
      (round (skip_slashes s) refl (scan-eq-push_all f) (length-skip_slashes s))
  where
    round :
        (t : Bytes)
        → skip_slashes s ≡ t
        → ((u : Bytes) (q : Parts) → length u ≤ f → scan f u q ≡ push_all q (components u))
        → length t ≤ length s
        → scan_body f t p ≡ push_all p (components t)
    round [] e ih le = rw components-nil
    round (c ∷ r) e ih le =
        let first = skip_slashes-first s c r e in
        rw (components_round c r first) (
          ih (after_component (c ∷ r)) (push p (component (c ∷ r)))
            (omega (arith, length-round c r first)))

-- fsNormalizePath is the fold of its stack operation over the components of the path between the
-- slashes.
pub normalize-eq-push_all :
    (s : Bytes)
    → normalize s ≡ finish (push_all (record { stack = []; overflow = false }) (components s))
unfolding normalize
normalize-eq-push_all s = rw (scan-eq-push_all (length s) s _ (omega arith))
