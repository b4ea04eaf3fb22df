-- ===== src/Session/Foreign.antt =====
-- The commands on a key that holds a value of another type: they refuse it.
use redis_fs.Base.{ℕ, ℤ, ◌≡◌, refl, List, [], ◌∷◌, Bool-cases, inl, inr}
use redis_fs.Base.ByteStrings.{Bytes}
use redis_fs.Dict.{DictApi}
use redis_fs.Inode.{Inode}
use redis_fs.Fs.{Fs}
use redis_fs.Command.{Slot, other_type, holds, RedisApi, is_option, open_write}
use redis_fs.Command.Move.{cp, cp_slot, mv}
use redis_fs.Command.Keeps.{Invariant}
use redis_fs.Command.Keeps.Rules.{Keeps, Result}
use redis_fs.Session.{All-any, args_of, Step-Keeps}
use redis_fs.Session.Storable.{AnyStep}

module _ (D : DictApi Inode) where
  abbrev IsForeign : Slot (Fs D) → Type 0
  IsForeign slot = slot ≡ other_type

  held-absurd {ℓ} : {X : Type ℓ} {fs : Fs D} → IsForeign (holds fs) → X
  held-absurd e = cc e

  -- Nothing is asked of the changes to a filesystem: there is none under the key.
  abbrev foreign : Invariant D
  foreign = record {
    Held = IsForeign;
    Clean = λ b. Unit;
    IsPath = λ p. Unit;
    Ready = λ fs p. Unit;
    named = λ raw p c e. tt;
    target = λ fs p q c e. tt;
    begun = λ now e. cc e;
    emptied = λ fs e. held-absurd e;
    parents = λ now fs p e is. held-absurd e;
    parents_ready = λ now fs p e is made. tt;
    dir_ready = λ fs p e is. tt;
    deleted = λ fuel now fs fs' p e is top out. held-absurd e;
    removed = λ now fs p i e is top there empty. held-absurd e;
    made = λ now t fs p e is r free. held-absurd e;
    file_made = λ now fs p e is r free. held-absurd e;
    link_made = λ now to fs p e is r free. held-absurd e;
    created = λ now fs p content e is r free. held-absurd e;
    appended = λ now fs p i old bloom content e there is. held-absurd e;
    overwritten = λ now fs p i old bloom content e there is. held-absurd e;
    resized = λ now n fs p i old bloom e there is. held-absurd e;
    written = λ fs p j i e there same fits. held-absurd e;
  }

  cp-IsForeign :
      (fuel : ℕ) (now : ℤ) (slot : Slot (Fs D)) (args : List Bytes)
      → IsForeign slot
      → Result D IsForeign (cp D fuel now slot args)
  unfolding cp cp_slot
  cp-IsForeign fuel now slot [] h = h
  cp-IsForeign fuel now slot (a ∷ []) h = h
  cp-IsForeign fuel now slot (a ∷ b ∷ []) h = rw h refl
  cp-IsForeign fuel now slot (a ∷ b ∷ opt ∷ []) h = elim (Bool-cases (is_option opt "recursive")) [
    | inl e ↦ rw (e, h) refl
    | inr e ↦ rw e h
  ]
  cp-IsForeign fuel now slot (a ∷ b ∷ opt ∷ c ∷ args) h = h

  mv-IsForeign :
      (now : ℤ) (slot : Slot (Fs D)) (args : List Bytes)
      → IsForeign slot
      → Keeps D IsForeign (mv D now slot args)
  unfolding mv open_write
  mv-IsForeign now slot [] h = h
  mv-IsForeign now slot (a ∷ []) h = h
  mv-IsForeign now slot (a ∷ b ∷ []) h = rw h refl
  mv-IsForeign now slot (a ∷ b ∷ c ∷ args) h = h

  -- Every command, with any arguments, leaves a key that holds a value of another type as it is.
  pub AnyStep-foreign :
      (api : RedisApi) {s t : Slot (Fs D)} → AnyStep D api s t → s ≡ other_type → t ≡ other_type
  AnyStep-foreign api (AnyStep.step st) h =
      Step-Keeps D api foreign st (All-any (args_of D api st)) h
  AnyStep-foreign api {s} (AnyStep.cp fuel now args o e) h =
      rw e at (cp-IsForeign fuel now s args h)
  AnyStep-foreign api {s} (AnyStep.mv now args) h = mv-IsForeign now s args h
