-- ===== src/Tests/S3TargetTests.antt =====
-- Tests of src/storage/s3_target.c.
use otsardb.Base.{◌≡◌, refl, none, some, ◌∷◌, ◌++◌}
use otsardb.Text.{codes}
use otsardb.S3Target.{Target, slash, parse, identity}
use otsardb.S3Target.Normal.{IsNormal, parse-IsNormal, parse-identity}

abbrev target : Target
target = record { bucket = codes "b"; database_root = codes "db/one" }

parsed : parse (codes "otsardb+s3://b//db/one//") ≡ some target
unfolding parse
parsed = refl

no_bucket : parse (codes "s3:///db") ≡ none
unfolding parse
no_bucket = refl

no_root : parse (codes "s3://b///") ≡ none
unfolding parse
no_root = refl

no_query : parse (codes "s3://b/db?x") ≡ none
unfolding parse
no_query = refl

other_scheme : parse (codes "http://b/db") ≡ none
unfolding parse
other_scheme = refl

parse-IsNormal_example : IsNormal target
parse-IsNormal_example = parse-IsNormal (codes "otsardb+s3://b//db/one//") target parsed

parse-identity_example :
    (parse (identity target) ≡ some target)
    × (parse (codes "otsardb+s3://" ++ (codes "b" ++ slash ∷ codes "db/one")) ≡ some target)
parse-identity_example = parse-identity target parse-IsNormal_example
