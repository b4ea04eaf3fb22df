-- ===== src/Tests/Paths.antt =====
-- module/path.c on concrete paths.
use redis_fs.Base.{◌<◌, ◌≡◌, refl, ◌≢◌, some, [], codes, length, false}
use redis_fs.Base.ByteStrings.{Bytes}
use redis_fs.Path.{root, normalize, parent, base_name, join, is_root, finish}
use redis_fs.Path.Components.{components, push_all, normalize-eq-push_all}
use redis_fs.Path.Normal.{IsName, IsNormal, normalize-IsNormal, normalize-normalize}
use redis_fs.Path.Parent.{length-parent, join-parent-base_name}

abbrev messy : Bytes
messy = codes "a//./b/../c/"

abbrev clean : Bytes
clean = codes "/a/c"

normalize-messy : normalize messy ≡ some clean
unfolding normalize
normalize-messy = refl

normalize-above_root : normalize (codes "/../..") ≡ some root
unfolding normalize
normalize-above_root = refl

clean-IsNormal : IsNormal clean
clean-IsNormal = normalize-IsNormal messy clean normalize-messy

normalize-IsNormal_example : IsNormal clean
normalize-IsNormal_example = normalize-IsNormal messy clean normalize-messy

normalize-normalize_example : normalize clean ≡ some clean
normalize-normalize_example = normalize-normalize messy clean normalize-messy

normalize-eq-push_all_example :
    normalize messy ≡ finish (push_all (record { stack = []; overflow = false }) (components messy))
normalize-eq-push_all_example = normalize-eq-push_all messy

clean-not_root : clean ≢ root
clean-not_root e = cc e

join-parent-base_name_example :
    (join (parent clean) (base_name clean) ≡ some clean)
    × IsNormal (parent clean)
    × IsName (base_name clean)
join-parent-base_name_example = join-parent-base_name clean clean-IsNormal clean-not_root

clean-parent_not_root : is_root (parent clean) ≡ false
unfolding parent is_root
clean-parent_not_root = refl

length-parent_example : length (parent clean) < length clean
length-parent_example = length-parent clean clean-parent_not_root
