-- ===== src/Rest/Retry.antt =====
-- How often a request is sent, and which answer is returned.
use Prim.Native.String.{String}
use text.Mathlib.Text.{◌==◌ as str_eq}
use go_ring.Common.{
  ℕ, zero, suc, ◌+◌, ◌≤◌, ◌<◌, ◌≡◌, refl, sym, ap, ◌∙◌, subst, Bool, true, false, not, ◌&&◌, ◌||◌,
  ◌⊎◌, inl, inr, ltb, if◌then◌else◌, arith, ltb→lt, Bool-cases,
}
use go_ring.Rest.{
  Attempt, Reply, failed, replied, Sent, response, body_failed, canceled_during_retry, is_final,
  max_retries, last_result, retry_loop, send_with_retry,
}

-- What a request is sent again after: no response, or a server error.
abbrev pub IsRetried : Reply → Type 0
IsRetried failed = Unit
IsRetried (replied status) = 500 ≤ status

is_final-IsRetried : (r : Reply) → is_final r ≡ false → IsRetried r
unfolding is_final
is_final-IsRetried failed h = tt
is_final-IsRetried (replied status) h = ground arith

-- A run of the loop: at most `bound` requests went out, all but the last ended in a server error or in
-- none, and a response that is returned is that of the last one, which is no server error unless the
-- attempts are used up.
pub IsRun : (ℕ → Attempt) → ℕ → ℕ → Sent × ℕ → Type 0
IsRun attempts from bound (result, count) =
    (from < count)
    × (count ≤ bound)
    × ((i : ℕ) → from ≤ i → suc i < count → IsRetried (attempts i).reply)
    × ((status : ℕ)
        → result ≡ response status
        → (i : ℕ) × (suc i ≡ count)
          × ((attempts i).reply ≡ replied status)
          × ((status < 500) ⊎ (count ≡ bound)))

last_result-response :
    (r : Reply) (status : ℕ) → last_result r ≡ response status → r ≡ replied status
unfolding last_result
last_result-response failed status h = absurd (cc)
last_result-response (replied s) status h = cc

all_used :
    (attempts : ℕ → Attempt) (i : ℕ)
    → IsRetried (attempts i).reply
    → IsRun attempts i (suc i + zero) (last_result (attempts i).reply, suc i)
unfolding IsRun
all_used attempts i h = (
  omega arith,
  omega arith,
  λ j low high. absurd (omega (arith, low, high)),
  λ status e. (i, refl, last_result-response _ status e, inr (omega arith)),
)

if-IsRun :
    (attempts : ℕ → Attempt) (from bound : ℕ) (b : Bool) (x y : Sent × ℕ)
    → (b ≡ true → IsRun attempts from bound x)
    → (b ≡ false → IsRun attempts from bound y)
    → IsRun attempts from bound (if b then x else y)
if-IsRun attempts from bound true x y f g = f refl
if-IsRun attempts from bound false x y f g = g refl

-- A run that ends without a response behind `count` requests.
stopped :
    (attempts : ℕ → Attempt) (from bound : ℕ) (result : Sent) (count : ℕ)
    → count ≤ bound
    → from < count
    → count ≤ suc (suc from)
    → IsRetried (attempts from).reply
    → ((status : ℕ) → result ≡ response status → ⊥)
    → IsRun attempts from bound (result, count)
unfolding IsRun
stopped attempts from bound result count fits more few h no_response = (
  more,
  fits,
  λ i low high. subst (λ j. IsRetried (attempts j).reply) (omega (arith, low, high, few)) h,
  λ status e. absurd (no_response status e),
)

-- One more attempt in front of a run.
extend :
    (attempts : ℕ → Attempt) (from bound bound' : ℕ) (run : Sent × ℕ)
    → bound ≡ bound'
    → IsRetried (attempts from).reply
    → IsRun attempts (suc from) bound run
    → IsRun attempts from bound' run
unfolding IsRun
extend attempts from bound bound' (result, count) same h (more, fits, finals, answer) = (
  omega (arith, more),
  omega (arith, fits, same),
  λ i low high. elim (Bool-cases (ltb from i)) [
    | inl above ↦ finals i (ltb→lt from i above) high
    | inr not_above ↦ subst (λ j. IsRetried (attempts j).reply) (ground (arith, low)) h
  ],
  λ status e.
      let (i, last, reply, kind) = answer status e in
      (i, last, reply, elim kind [ inl ok_status ↦ inl ok_status | inr full ↦ inr (full ∙ same) ]),
)

is_final-status :
    (r : Reply) (status : ℕ)
    → is_final r ≡ true
    → last_result r ≡ response status
    → (r ≡ replied status) × (status < 500)
unfolding is_final last_result
is_final-status failed status final e = absurd (cc)
is_final-status (replied s) status final e =
    let same : s ≡ status = cc in (ap replied same, ground (arith, same))

-- A run that ends with a response that is no server error.
final-IsRun :
    (attempts : ℕ → Attempt) (from bound : ℕ)
    → suc (suc from) ≤ bound
    → IsRetried (attempts from).reply
    → is_final (attempts (suc from)).reply ≡ true
    → IsRun attempts from bound (last_result (attempts (suc from)).reply, suc (suc from))
unfolding IsRun
final-IsRun attempts from bound fits h final = (
  omega arith,
  fits,
  λ i low high. subst (λ j. IsRetried (attempts j).reply) (omega (arith, low, high)) h,
  λ status e.
      let (reply, small) = is_final-status (attempts (suc from)).reply status final e in
      (suc from, refl, reply, inl small),
)

first_final :
    (attempts : ℕ → Attempt) (bound : ℕ)
    → 1 ≤ bound
    → is_final (attempts 0).reply ≡ true
    → IsRun attempts 0 bound (last_result (attempts 0).reply, 1)
unfolding IsRun
first_final attempts bound fits final = (
  omega arith,
  fits,
  λ i low high. absurd (omega (arith, high)),
  λ status e.
      let (reply, small) = is_final-status (attempts 0).reply status final e in
      (0, refl, reply, inl small),
)

retry_loop-IsRun :
    (attempts : ℕ → Attempt) (left i : ℕ)
    → IsRetried (attempts i).reply
    → IsRun attempts i (suc i + left) (retry_loop attempts left (suc i) (attempts i).reply)
unfolding retry_loop
retry_loop-IsRun attempts zero i h = all_used attempts i h
retry_loop-IsRun attempts (suc left) i h =
    let next = attempts (suc i) in
    let bound = suc i + suc left in
    if-IsRun attempts i bound (ltb 0 (suc i) && not next.has_body) _ _
      (λ _.
        stopped attempts i bound body_failed (suc i) (omega arith) (omega arith) (omega arith) h
          (λ s e. cc))
      λ _.
        if-IsRun attempts i bound (is_final next.reply) _ _
          (final-IsRun attempts i bound (omega arith) h)
          λ not_final.
            if-IsRun attempts i bound (ltb 0 left && next.canceled) _ _
              (λ _.
                stopped attempts i bound canceled_during_retry (suc (suc i)) (omega arith)
                  (omega arith) (omega arith) h (λ s e. cc))
              λ _.
                extend attempts i (suc (suc i) + left) bound _ (omega arith) h
                  (retry_loop-IsRun attempts left (suc i) (is_final-IsRetried next.reply not_final))

first_attempt :
    (attempts : ℕ → Attempt) (left : ℕ)
    → IsRun attempts 0 (suc left) (retry_loop attempts (suc left) 0 failed)
unfolding retry_loop
first_attempt attempts left =
    let first = attempts 0 in
    if-IsRun attempts 0 (suc left) (is_final first.reply) _ _
      (λ final. first_final attempts (suc left) (omega arith) final)
      λ not_final.
        if-IsRun attempts 0 (suc left) (ltb 0 left && first.canceled) _ _
          (λ _.
            stopped attempts 0 (suc left) canceled_during_retry 1 (omega arith) (omega arith)
              (omega arith) (is_final-IsRetried first.reply not_final) (λ s e. cc))
          λ _.
            subst (λ b. IsRun attempts 0 b (retry_loop attempts left 1 first.reply)) (omega arith)
              (retry_loop-IsRun attempts left 0 (is_final-IsRetried first.reply not_final))

max_retries-suc : (method : String) → (n : ℕ) × (max_retries method ≡ suc n)
unfolding max_retries
max_retries-suc method = elim (Bool-cases (str_eq method "GET" || str_eq method "HEAD")) [
  | inl get ↦ (2, ap (λ b. if b then 3 else 1) get)
  | inr other ↦ (0, ap (λ b. if b then 3 else 1) other)
]

-- A request goes out at least once, and at most as often as the limit for its method, which is three
-- times for GET and HEAD and once for any other. All requests but the last ended in a server error or
-- without a response. A response that is returned answers the last request, and is a server error only
-- if the limit is reached.
pub send_with_retry-IsRun :
    (attempts : ℕ → Attempt) (method : String)
    → IsRun attempts 0 (max_retries method) (send_with_retry attempts method)
      × (max_retries method ≡ (if str_eq method "GET" || str_eq method "HEAD" then 3 else 1))
unfolding send_with_retry max_retries
send_with_retry-IsRun attempts method =
    let (n, limit) = max_retries-suc method in
    (
      subst (λ m. IsRun attempts 0 m (retry_loop attempts m 0 failed)) (sym limit)
          (first_attempt attempts n),
      refl,
    )
