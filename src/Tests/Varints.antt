-- ===== src/Tests/Varints.antt =====
-- varint/varint.go on concrete bytes.
use go_geodiff.Common.{◌+◌, ◌^◌, ◌≤◌, ◌<◌, ◌≡◌, refl, sym, ap, ◌⊎◌, arith, [], ◌∷◌, ◌++◌, length}
use go_geodiff.Result.{ok, err, offset_beyond_buffer}
use go_geodiff.Varint.{max_varint_len, get_varint64, get_varint, put_varint64, put_varint}
use go_geodiff.Varint.Decode.{get_varint-Consumes, Consumes}
use go_geodiff.Varint.RoundTrip.{get_varint64-put_varint64, length-put_varint64}
use go_geodiff.Varint.Word.{get_varint-put_varint}

put_varint_300 : put_varint 300 ≡ 130 ∷ 44 ∷ []
unfolding put_varint
put_varint_300 = refl

get_varint-put_varint_example :
    get_varint (7 ∷ 130 ∷ 44 ∷ 9 ∷ []) 1 ≡ ok (300, length (put_varint 300))
get_varint-put_varint_example =
    get_varint-put_varint (7 ∷ 130 ∷ 44 ∷ 9 ∷ []) 1 300 (9 ∷ []) (omega arith)
      (ap (λ bs. bs ++ (9 ∷ [])) (sym put_varint_300))

get_varint64-put_varint64_example :
    get_varint64 (put_varint64 (2 ^ 63 + 5) ++ (1 ∷ []))
    ≡ ok (2 ^ 63 + 5, length (put_varint64 (2 ^ 63 + 5)))
get_varint64-put_varint64_example = get_varint64-put_varint64 (2 ^ 63 + 5) (1 ∷ []) (omega arith)

get_varint-Consumes_example :
    ((2 ≤ 1) × (get_varint (130 ∷ 44 ∷ []) 1 ≡ err offset_beyond_buffer))
    ⊎ ((1 < 2) × Consumes (44 ∷ []) (get_varint (130 ∷ 44 ∷ []) 1))
get_varint-Consumes_example = get_varint-Consumes (130 ∷ 44 ∷ []) 1

length-put_varint64_example :
    (1 ≤ length (put_varint64 (2 ^ 60))) × (length (put_varint64 (2 ^ 60)) ≤ max_varint_len)
length-put_varint64_example = length-put_varint64 (2 ^ 60) (omega arith)
