-- ===== src/Command/Refine.antt =====
-- ECHO against its abstract contract: the files are a map from paths to contents, and ECHO puts one
-- content into it.
use mathlib.Core.List.{append-nil}
use redis_fs.Base.{
  ℤ, ◌≡◌, refl, sym, ap, ◌∙◌, Bool, true, false, Option, none, some, [], ◌∷◌, ◌++◌, arith,
  Bool-cases, Option-cases, inl, inr, if◌then◌else◌, bytes_eq, String, ◌==◌, length, add64,
}
use redis_fs.Base.ByteStrings.{Bytes}
use redis_fs.Bloom.{bloom_build}
use redis_fs.Dict.{DictApi, or_else}
use redis_fs.Inode.{
  Inode, Payload, file, dir, symlink, is_dir, file_set_data, file_append_data, inode_create,
}
use redis_fs.Path.{is_root}
use redis_fs.Fs.{Fs, lookup, insert, write_inode, ensure_parents}
use redis_fs.Fs.Leaves.{
  leaf, not_dir, leaf-ensure_parents, leaf-link_to_parent_at, leaf-insert, leaf-write_inode,
}
use redis_fs.Command.{simple, holds, new_or_file}
use redis_fs.Command.Contents.{with_parents-ok}
use redis_fs.Command.Write.{create, new_file, append_to, overwrite, echo_file, echo_at}

content_of : Option Inode → Option Bytes
content_of none = none
content_of (some i) = elim i.payload [ file content _ ↦ some content | _ ↦ none ]

-- The abstract operation.
unfoldable pub put : (Bytes → Option Bytes) → Bytes → Bytes → Bytes → Option Bytes
put m path content j = if bytes_eq path j then some content else m j

-- What ECHO writes: with APPEND, behind what is there.
unfoldable pub written : Bool → Option Bytes → Bytes → Bytes
written append old content = if append then or_else old [] ++ content else content

content_of-if :
    (b : Bool) (i : Inode) (o : Option Inode) (content : Bytes)
    → content_of (some i) ≡ some content
    → content_of (if b then some i else o) ≡ (if b then some content else content_of o)
unfolding content_of
content_of-if true i o content h = h
content_of-if false i o content h = refl

content_of-file :
    (i : Inode) (content bloom : Bytes)
    → i.payload ≡ file content bloom
    → (content_of (some i) ≡ some content) × (is_dir i.payload ≡ false)
unfolding content_of
content_of-file i content bloom e = (rw e, rw e)

append-empty : (old c : Bytes) → (length c == 0) ≡ true → old ++ c ≡ old
append-empty old [] h = append-nil old
append-empty old (x ∷ c) h = absurd (ground arith)

file_append_data-file :
    (i : Inode) (old bloom content : Bytes)
    → i.payload ≡ file old bloom
    → (b : Bytes) × ((file_append_data i content).payload ≡ file (old ++ content) b)
unfolding file_append_data
file_append_data-file i old bloom content e = elim (Bool-cases (length content == 0)) [
  | inl q ↦ (bloom, rw (e, file_append_data, q, append-empty old content q) e)
  | inr q ↦ (bloom_build (old ++ content), rw (e, file_append_data, q))
]

module _ (D : DictApi Inode) where
  -- The content of the file at a path.
  unfoldable pub contents : Fs D → Bytes → Option Bytes
  unfolding content_of
  contents fs path = content_of (leaf D fs path)

  -- A new file, and a file with other bytes, under any count of bytes.
  create-put :
      (now : ℤ) (fs : Fs D) (path content j : Bytes)
      → lookup D fs path ≡ none
      → contents (create D now fs path (new_file D now content) content) j
        ≡ put (contents fs) path content j
  unfolding create contents put new_file inode_create file_set_data leaf lookup
  create-put now fs path content j gone =
      let i = new_file D now content in
      let (here, is) = content_of-file i content (bloom_build content) refl in
      let fs' = insert D fs path i in
      let counted = record fs' { total_data_size = add64 fs'.total_data_size (length content) } in
      ap content_of
        (leaf-link_to_parent_at D now counted path j ∙ leaf-insert D fs path j i gone is)
      ∙ content_of-if (bytes_eq path j) i (leaf D fs j) content here

  write-put :
      (fs : Fs D) (path content bloom j : Bytes) (i : Inode)
      → i.payload ≡ file content bloom
      → contents (write_inode D fs path i) j ≡ put (contents fs) path content j
  unfolding contents put
  write-put fs path content bloom j i e =
      let (here, is) = content_of-file i content bloom e in
      ap content_of (leaf-write_inode D fs path j i is)
      ∙ content_of-if (bytes_eq path j) i (leaf D fs j) content here

  append_to-put :
      (now : ℤ) (fs : Fs D) (path : Bytes) (i : Inode) (old bloom content j : Bytes)
      → i.payload ≡ file old bloom
      → contents (append_to D now fs path i content) j ≡ put (contents fs) path (old ++ content) j
  unfolding append_to contents leaf lookup
  append_to-put now fs path i old bloom content j e =
      let (b, is) = file_append_data-file i old bloom content e in
      write-put fs path (old ++ content) b j (record (file_append_data i content) { mtime = now })
        is

  overwrite-put :
      (now : ℤ) (fs : Fs D) (path : Bytes) (i : Inode) (old bloom content j : Bytes)
      → i.payload ≡ file old bloom
      → contents (overwrite D now fs path i old content) j ≡ put (contents fs) path content j
  unfolding overwrite contents leaf lookup file_set_data
  overwrite-put now fs path i old bloom content j e =
      write-put fs path content (bloom_build content) j
        (record (file_set_data i content) { mtime = now }) (rw (file_set_data, e))

  contents-found :
      (fs : Fs D) (path : Bytes) (i : Inode) (old bloom : Bytes)
      → lookup D fs path ≡ some i
      → i.payload ≡ file old bloom
      → contents fs path ≡ some old
  unfolding contents leaf not_dir
  contents-found fs path i old bloom e k =
      let (here, is) = content_of-file i old bloom k in rw (e, is) here

  contents-missing : (fs : Fs D) (path : Bytes) → lookup D fs path ≡ none → contents fs path ≡ none
  unfolding contents leaf not_dir
  contents-missing fs path e = rw e

  echo_file-put :
      (now : ℤ) (append : Bool) (content path : Bytes) (fs : Fs D)
      → (echo_file D now append content path fs).reply ≡ simple "OK"
      → (after : Fs D) × ((echo_file D now append content path fs).slot ≡ holds after)
        × ((j : Bytes)
            → contents after j
              ≡ put (contents fs) path (written append (contents fs path) content) j)
  unfolding echo_file new_or_file written
  echo_file-put now append content path fs h = elim (Option-cases (lookup D fs path)) [
    | inl e ↦
        let blank : written append none content ≡ content = new_content append in
        rw (echo_file, new_or_file, e, contents-missing fs path e)
          (
            create D now fs path (new_file D now content) content,
            refl,
            λ j. rw blank (create-put now fs path content j e),
          )
    | inr (i, e) ↦ there append i e i.payload refl h
  ]
    where
      new_content : (b : Bool) → written b none content ≡ content
      new_content true = refl
      new_content false = refl

      there :
          (b : Bool) (i : Inode)
          → lookup D fs path ≡ some i
          → (x : Payload) → i.payload ≡ x
          → (echo_file D now b content path fs).reply ≡ simple "OK"
          → (after : Fs D) × ((echo_file D now b content path fs).slot ≡ holds after)
            × ((j : Bytes)
                → contents after j
                  ≡ put (contents fs) path (written b (contents fs path) content) j)
      there true i e (file old bloom) k m =
          rw (echo_file, new_or_file, e, k, contents-found fs path i old bloom e k)
            (
              append_to D now fs path i content,
              refl,
              λ j. append_to-put now fs path i old bloom content j k,
            )
      there false i e (file old bloom) k m =
          rw (echo_file, new_or_file, e, k)
            (
              overwrite D now fs path i old content,
              refl,
              λ j. overwrite-put now fs path i old bloom content j k,
            )
      there b i e (dir cs) k m = cc (rw (echo_file, new_or_file, e, k) at m)
      there b i e (symlink t) k m = cc (rw (echo_file, new_or_file, e, k) at m)

  -- ECHO refines the map's `put`: if it replies OK, the file at its path has the content that was
  -- given, behind the old one with APPEND, and the content of every other file is as it was.
  pub echo_at-put :
      (now : ℤ) (append : Bool) (content : Bytes) (fs : Fs D) (path : Bytes)
      → (echo_at D now append content fs path).reply ≡ simple "OK"
      → (after : Fs D) × ((echo_at D now append content fs path).slot ≡ holds after)
        × ((j : Bytes)
            → contents after j
              ≡ put (contents fs) path (written append (contents fs path) content) j)
  unfolding echo_at put contents
  echo_at-put now append content fs path h = elim (Bool-cases (is_root path)) [
    | inl e ↦ cc (rw (echo_at, e) at h)
    | inr e ↦
        let mid = (ensure_parents D now fs path).0 in
        let same : (j : Bytes) → contents mid j ≡ contents fs j =
          λ j. ap content_of (leaf-ensure_parents D now fs path j) in
        let message : String = "ERR parent path conflict — a non-directory exists in the path" in
        let past =
          with_parents-ok D now fs path message (echo_file D now append content path) (rw e at h) in
        let (after, held, puts) =
          echo_file-put now append content path mid (ap (λ o. o.reply) (sym past) ∙ rw e at h) in
        (
          after,
          rw e (ap (λ o. o.slot) past ∙ held),
          λ j.
              puts j
              ∙ ap
                  (λ m. if bytes_eq path j then some (written append m content) else contents mid j)
                  (same path)
              ∙ ap
                  (λ m.
                    if bytes_eq path j then some (written append (contents fs path) content) else m)
                  (same j),
        )
  ]
