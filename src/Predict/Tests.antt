-- ===== src/Predict/Tests.antt =====
-- Runs of the predictor, and its theorems at concrete inputs.
use zupt_web.Base.{◌≤◌, ◌<◌, min, ◌≡◌, true, [], ◌∷◌, get_or, length, All, IsByte, arith}
use zupt_web.Predict.{predict_build, predict_encode, predict_decode}
use zupt_web.Predict.Inverse.{predict_decode-predict_encode}
use zupt_web.Predict.Best.{occurrences, predict_build-occurrences}

predict_decode-predict_encode_example :
    (predict_decode (predict_encode (7 ∷ 9 ∷ 7 ∷ []) (5 ∷ 6 ∷ [])) (5 ∷ 6 ∷ []) ≡ 7 ∷ 9 ∷ 7 ∷ [])
    × (length (predict_encode (7 ∷ 9 ∷ 7 ∷ []) (5 ∷ 6 ∷ [])) ≡ 3)
    × All IsByte (predict_encode (7 ∷ 9 ∷ 7 ∷ []) (5 ∷ 6 ∷ []))
predict_decode-predict_encode_example =
    predict_decode-predict_encode (7 ∷ 9 ∷ 7 ∷ []) (5 ∷ 6 ∷ []) (omega arith) (omega arith)

predict_build-occurrences_example :
    let best = get_or (predict_build true (7 ∷ 9 ∷ 7 ∷ 9 ∷ 7 ∷ 3 ∷ [])) 7 0 in
    (best < 256)
    × (min 65535 (occurrences 7 3 0 (7 ∷ 9 ∷ 7 ∷ 9 ∷ 7 ∷ 3 ∷ []))
        ≤ min 65535 (occurrences 7 best 0 (7 ∷ 9 ∷ 7 ∷ 9 ∷ 7 ∷ 3 ∷ [])))
predict_build-occurrences_example =
    predict_build-occurrences (7 ∷ 9 ∷ 7 ∷ 9 ∷ 7 ∷ 3 ∷ []) 7 3 (omega arith) (omega arith)
