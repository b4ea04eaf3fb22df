-- ===== src/Bloom/Occurring.antt =====
-- The runs that fsBloomExtractLiteral keeps, against the text that a match has consumed: they occur in
-- it, but for the case of letters.
use mathlib.Core.List.{append_assoc, append-nil, map-append}
use redis_fs.Base.{
  ℕ, ◌<◌, ◌≡◌, refl, sym, ap, ◌∙◌, [], ◌∷◌, ◌++◌, map, arith, ltb, length, Bool-cases, inl, inr,
  ltb→lt,
}
use redis_fs.Base.ByteStrings.{Bytes}
use redis_fs.Bloom.{lower_char, Runs, end_run, put_char}

abbrev pub SameLetters : Bytes → Bytes → Type 0
SameLetters m w = map lower_char m ≡ map lower_char w

abbrev pub Occurs : Bytes → Bytes → Type 0
Occurs w u = (b m a : Bytes) × (u ≡ b ++ (m ++ a)) × SameLetters m w

abbrev pub Ends : Bytes → Bytes → Type 0
Ends w u = (b m : Bytes) × (u ≡ b ++ m) × SameLetters m w

pub Occurs-append : (w u v : Bytes) → Occurs w u → Occurs w (u ++ v)
Occurs-append w u v (b, m, a, e, k) = (
  b,
  m,
  a ++ v,
  ap (λ l. l ++ v) e ∙ append_assoc b (m ++ a) v ∙ ap (λ l. b ++ l) (append_assoc m a v),
  k,
)

pub Ends-Occurs : (w u : Bytes) → Ends w u → Occurs w u
Ends-Occurs w u (b, m, e, k) = (b, m, [], e ∙ ap (λ l. b ++ l) (sym (append-nil m)), k)

pub Ends-nil : (u : Bytes) → Ends [] u
Ends-nil u = (u, [], sym (append-nil u), refl)

Ends-put :
    (w u : Bytes) (c sc : ℕ)
    → lower_char sc ≡ lower_char c
    → Ends w u
    → Ends (w ++ c ∷ []) (u ++ sc ∷ [])
Ends-put w u c sc h (b, m, e, k) = (
  b,
  m ++ sc ∷ [],
  ap (λ l. l ++ sc ∷ []) e ∙ append_assoc b m (sc ∷ []),
  map-append lower_char m (sc ∷ [])
      ∙ ap (λ l. l ++ lower_char sc ∷ []) k
      ∙ ap (λ x. map lower_char w ++ x ∷ []) h
      ∙ sym (map-append lower_char w (c ∷ [])),
)

-- Both runs occur in the text.
pub record Found (u : Bytes) (r : Runs) : Type 0 where
  pub best : Occurs r.best u
  pub cur : Occurs r.cur u

-- And the text ends in the current run, which may still grow.
pub record Follows (u : Bytes) (r : Runs) : Type 0 where
  pub best : Occurs r.best u
  pub cur : Occurs r.cur u
  pub ends : length r.cur < 255 → Ends r.cur u

pub Found-append : (u v : Bytes) (r : Runs) → Found u r → Found (u ++ v) r
Found-append u v r h = record {
  best = Occurs-append r.best u v h.best;
  cur = Occurs-append r.cur u v h.cur;
}

pub Follows-Found : (u : Bytes) (r : Runs) → Follows u r → Found u r
Follows-Found u r h = record { best = h.best; cur = h.cur }

pub start-Follows : Follows [] (record { cur = []; best = [] })
start-Follows = record {
  best = ([], [], [], refl, refl);
  cur = ([], [], [], refl, refl);
  ends = λ h. Ends-nil [];
}

-- The best run after the current one has ended.
pub end_run-Occurs : (u : Bytes) (r : Runs) → Found u r → Occurs (end_run r).best u
unfolding end_run
end_run-Occurs u r h = elim (Bool-cases (ltb (length r.best) (length r.cur))) [
  | inl e ↦ rw e h.cur
  | inr e ↦ rw e h.best
]

pub end_run-Follows : (u v : Bytes) (r : Runs) → Found u r → Follows (u ++ v) (end_run r)
unfolding end_run
end_run-Follows u v r h = record {
  best = Occurs-append (end_run r).best u v (end_run-Occurs u r h);
  cur = Ends-Occurs [] (u ++ v) (Ends-nil (u ++ v));
  ends = λ k. Ends-nil (u ++ v);
}

pub put_char-Follows :
    (u : Bytes) (r : Runs) (c sc : ℕ)
    → lower_char sc ≡ lower_char c
    → Follows u r
    → Follows (u ++ sc ∷ []) (put_char r c)
unfolding put_char
put_char-Follows u r c sc h f = elim (Bool-cases (ltb (length r.cur) 255)) [
  | inl e ↦
      let grown = Ends-put r.cur u c sc h (f.ends (ltb→lt (length r.cur) 255 e)) in
      rw e (record {
        best = Occurs-append r.best u (sc ∷ []) f.best;
        cur = Ends-Occurs (r.cur ++ c ∷ []) (u ++ sc ∷ []) grown;
        ends = λ k. grown;
      })
  | inr e ↦ rw e (record {
    best = Occurs-append r.best u (sc ∷ []) f.best;
    cur = Occurs-append r.cur u (sc ∷ []) f.cur;
    ends = λ k. absurd (ground arith);
  })
]

-- A run that has ended does not end again.
pub end_run_idem : (r : Runs) → end_run (end_run r) ≡ end_run r
unfolding end_run
end_run_idem r = ground arith

pub Occurs-prepend : (w u v : Bytes) → Occurs w u → Occurs w (v ++ u)
Occurs-prepend w u v (b, m, a, e, k) =
    (v ++ b, m, a, ap (λ l. v ++ l) e ∙ sym (append_assoc v b (m ++ a)), k)
