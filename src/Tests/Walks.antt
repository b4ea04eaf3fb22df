-- ===== src/Tests/Walks.antt =====
-- GREP and FIND over an association list, and the search of a file behind its filter.
use redis_fs.Base.{
  ◌≡◌, refl, true, some, none, List, [], ◌∷◌, All, NoNul, codes, bytes_eq, arith, if◌then◌else◌,
  ltb, length, c_str,
}
use redis_fs.Base.ByteStrings.{Bytes}
use redis_fs.Bloom.{extract_literal, bloom_build}
use redis_fs.Bloom.Occurring.{Occurs}
use redis_fs.Bloom.Extract.{extract_literal-Occurs}
use redis_fs.Dict.{find}
use redis_fs.Dict.Total.{without}
use redis_fs.Glob.{glob_match_internal}
use redis_fs.Inode.{Inode, inode_create}
use redis_fs.Path.{join, base_name}
use redis_fs.Path.Normal.{path_of}
use redis_fs.Text.Grep.{is_match, grep_file, search_file}
use redis_fs.Text.GrepFilter.{grep_file-bloom_build}
use redis_fs.Fs.{object_create, insert, count_in, lookup}
use redis_fs.Command.Walk.{Hit, find_walk, grep_walk, walk, hits_here}
use redis_fs.Command.Walk.Filter.{IsFiltered, plain_search, grep_walk-plain_search}
use redis_fs.Command.Walk.Ends.{HasCNames, walks_end}
use redis_fs.Path.Plain.{IsCName}
use redis_fs.Command.Remove.{children}
use redis_fs.Tests.Stores.{store}
use redis_fs.Tests.Removal.{tree, f-IsName, find-All}

pattern-NoNul : NoNul (codes "*abc[x]")
pattern-NoNul = (
  (λ e. cc e),
  ((λ e. cc e), ((λ e. cc e), ((λ e. cc e), ((λ e. cc e), ((λ e. cc e), ((λ e. cc e), tt)))))),
)

pattern-matches : glob_match_internal true (codes "*abc[x]") (codes "1ABCx") ≡ some true
unfolding glob_match_internal
pattern-matches = refl

extract_literal-Occurs_example : Occurs (extract_literal (codes "*abc[x]")) (codes "1ABCx")
extract_literal-Occurs_example =
    extract_literal-Occurs true (codes "*abc[x]") (codes "1ABCx") pattern-NoNul pattern-matches

grep_file-bloom_build_example :
    grep_file true (codes "*abc[x]") (codes "1ABCx") (bloom_build (codes "1ABCx")) ≡ (
      if ltb 0 (length (codes "1ABCx"))
      then search_file true (codes "*abc[x]") (codes "1ABCx")
      else [])
grep_file-bloom_build_example =
    grep_file-bloom_build true (codes "*abc[x]") pattern-NoNul (codes "1ABCx")

f-IsCName : IsCName (codes "f")
f-IsCName = (f-IsName, ((λ e. cc e), tt))

tree-HasCNames : HasCNames store tree
unfolding insert count_in object_create inode_create without bytes_eq find lookup
tree-HasCNames p i e =
    find-All (λ i. All IsCName (children i.payload)) (store.entries tree.inodes) p i
      (tt, ((f-IsCName, tt), tt)) e

d-IsCName : IsCName (codes "d")
d-IsCName = (
  record { piece = (omega arith, (refl, tt)); not_dot = refl; not_dot_dot = refl },
  ((λ e. cc e), tt),
)

walks_end_example :
    ((ps : List Bytes) × (find_walk store 257 (codes "f*") none tree (path_of (codes "d" ∷ []))
        ≡ some ps))
    × ((hs : List Hit) × (grep_walk store 257 true (codes "f*") tree (path_of (codes "d" ∷ []))
          ≡ some hs))
walks_end_example =
    walks_end store tree (codes "d" ∷ []) true (codes "f*") none (d-IsCName, tt) (omega arith)
      tree-HasCNames

-- The walk lists a directory and then what is in it.
find_walk-tree :
    find_walk store 257 (codes "*") none tree (codes "/d") ≡ some (codes "/d" ∷ codes "/d/f" ∷ [])
unfolding find_walk lookup insert count_in object_create inode_create without bytes_eq find join
    base_name is_match c_str glob_match_internal
find_walk-tree = refl

tree-IsFiltered : (p : Bytes) (i : Inode) → lookup store tree p ≡ some i → IsFiltered i.payload
unfolding insert count_in object_create inode_create without bytes_eq find lookup bloom_build
tree-IsFiltered p i e =
    find-All (λ i. IsFiltered i.payload) (store.entries tree.inodes) p i (refl, (tt, tt)) e

grep_walk-plain_search_example :
    grep_walk store 3 true (c_str (codes "a*")) tree (codes "/d")
    ≡ walk store (hits_here (plain_search true (c_str (codes "a*")))) 3 tree (codes "/d")
grep_walk-plain_search_example =
    grep_walk-plain_search store tree true (codes "a*") tree-IsFiltered 3 (codes "/d")
