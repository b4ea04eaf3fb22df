-- ===== src/Tests/Guards.antt =====
-- What commands leave under a key: CAT under a file, ECHO and CP under a value of another type.
use redis_fs.Base.{◌≡◌, refl, [], ◌∷◌, codes}
use redis_fs.Command.{other_type}
use redis_fs.Command.Read.{cat}
use redis_fs.Command.Write.{echo}
use redis_fs.Session.{Step}
use redis_fs.Session.Storable.{AnyStep}
use redis_fs.Session.Foreign.{AnyStep-foreign}
use redis_fs.Session.Readonly.{IsUnwritten, AnyStep-IsUnwritten}
use redis_fs.Tests.Stores.{store, api, written, now}

AnyStep-foreign_example :
    (echo store now other_type (codes "/a" ∷ codes "hello" ∷ [])).slot ≡ other_type
AnyStep-foreign_example =
    AnyStep-foreign store api (AnyStep.step (Step.echo now (codes "/a" ∷ codes "hello" ∷ []))) refl

AnyStep-IsUnwritten_example :
    IsUnwritten store written (cat store now written (codes "/a/b" ∷ [])).slot
AnyStep-IsUnwritten_example =
    AnyStep-IsUnwritten store api (AnyStep.step (Step.cat now (codes "/a/b" ∷ []))) refl
