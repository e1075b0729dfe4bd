-- ===== src/ShareConversion/Tests.antt =====
-- Conversions over the field of one bit.
use mpz.Prelude.{◌≡◌, ◌≢◌, arith, Bool, true, false, ok}
use mpz.Field.Gf2.{gf2, gf2-IsField}
use mpz.Ole.Tests.{sender_share, receiver_share, shares-IsOle}
use mpz.ShareConversion.{convert}
use mpz.ShareConversion.Product.{convert-product}

sender_share-nonzero : sender_share.mul ≢ gf2.zero
unfolding gf2
sender_share-nonzero = ground arith

convert-product_example :
    (a b : Bool) × (convert gf2 true false sender_share receiver_share ≡ ok (a, b))
    × (gf2.mul a b ≡ gf2.add true false)
convert-product_example =
    convert-product gf2-IsField true false sender_share receiver_share shares-IsOle
      sender_share-nonzero
