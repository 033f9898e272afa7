-- ===== src/Session/Tests.antt =====
-- An error that a call of src/syscalls.js returns, in the registers.
use noopsys.Base.{ℕ, ◌≡◌, ◌≢◌, true, arith}
use noopsys.Base.Int.{negsuc}
use noopsys.Session.{put_result}
use noopsys.Session.Laws.{negative, decoded, put_result-decoded}

-- `-EINVAL`
put_result-decoded_example :
    (decoded (put_result true (negsuc 21) (λ _. 5)) ≡ negsuc 21)
    × ((r : ℕ) → r ≢ 2 → r ≢ 7 → put_result true (negsuc 21) (λ _. 5) r ≡ 5)
put_result-decoded_example = put_result-decoded (negsuc 21) (λ _. 5) (negative 21 (omega arith))
