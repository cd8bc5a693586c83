-- ===== src/TimeHelper/Buffer.antt =====
-- The loop of `getFormattedTime` that makes its buffer larger.
use log4cplus.Common.{
  ℕ, zero, suc, ◌+◌, ◌*◌, ◌≤◌, ◌<◌, ◌≡◌, ◌≢◌, max, false, [], ◌∷◌, Text, length, ◌==◌, Bool-cases,
  inl, inr, arith,
}
use log4cplus.TimeHelper.{formatted, failed, stuck, Tm, buffer_loop, walk, get_formatted_time}

-- The size after k doublings.
doubled : ℕ → ℕ → ℕ
doubled zero size = size
doubled (suc k) size = doubled k (size * 2)

-- What the buffer ends up with for a text: a text that is not empty is given if it is short enough.
loop-empty :
    (k limit size : ℕ) → limit < doubled (suc k) size → buffer_loop (suc k) limit [] size ≡ failed
unfolding buffer_loop doubled
loop-empty zero limit size h = ground (arith, h)
loop-empty (suc k) limit size h = ground (arith, loop-empty k limit (size * 2) h)

loop-fits :
    (k limit : ℕ) (c : ℕ) (text : Text) (size : ℕ)
    → limit < doubled (suc k) size
    → length (c ∷ text) * 2 ≤ limit
    → buffer_loop (suc k) limit (c ∷ text) size ≡ formatted (c ∷ text)
unfolding buffer_loop doubled
loop-fits zero limit c text size h fits = ground (arith, h, fits)
loop-fits (suc k) limit c text size h fits =
    ground (arith, loop-fits k limit c text (size * 2) h fits, fits)

loop-ends :
    (k limit : ℕ) (text : Text) (size : ℕ)
    → limit < doubled (suc k) size
    → buffer_loop (suc k) limit text size ≢ stuck
unfolding buffer_loop doubled
loop-ends zero limit text size h = ground (arith, h)
loop-ends (suc k) limit text size h = ground (arith, loop-ends k limit text (size * 2) h)

reached : (n size : ℕ) → 1 ≤ n → n ≤ size → max 1024 (n * 16) < doubled 11 size
unfolding doubled
reached n size h wide = ground arith

-- Eleven rounds of the loop are enough whatever strftime writes and however large the thread's
-- buffer is: then `getFormattedTime` either returns or reports an error.
pub get_formatted_time-ends :
    (strftime : Text → Tm → Text) (capacity : ℕ) (fmt : Text) (time : ℕ) (tm : Tm)
    → get_formatted_time strftime 11 capacity fmt time tm ≢ stuck
unfolding get_formatted_time
get_formatted_time-ends strftime capacity [] time tm = λ e. cc
get_formatted_time-ends strftime capacity (c ∷ fmt) time tm =
    let fmt' = walk time false (c ∷ fmt) [] in
    let size = length fmt' + 1 in
    let wide = reached size (max size capacity) (omega arith) (ground arith) in
    let ends = loop-ends 10 (max 1024 (size * 16)) (strftime fmt' tm) (max size capacity) wide in
    elim (Bool-cases (c == 0)) [ inl e ↦ rw e (λ x. cc) | inr e ↦ rw e ends ]

-- For a format that does not start with the end of the text, `getFormattedTime` reports an error for
-- a time whose text by strftime is empty, although strftime has done nothing wrong, and returns
-- every other text of strftime that is no longer than 512 characters.
pub get_formatted_time_lem :
    (strftime : Text → Tm → Text) (capacity c : ℕ) (fmt : Text) (time : ℕ) (tm : Tm)
    → c ≢ 0
    → ((strftime (walk time false (c ∷ fmt) []) tm ≡ [])
        → get_formatted_time strftime 11 capacity (c ∷ fmt) time tm ≡ failed)
      × ((d : ℕ) (text : Text)
          → strftime (walk time false (c ∷ fmt) []) tm ≡ d ∷ text
          → length (d ∷ text) ≤ 512
          → get_formatted_time strftime 11 capacity (c ∷ fmt) time tm ≡ formatted (d ∷ text))
unfolding get_formatted_time
get_formatted_time_lem strftime capacity c fmt time tm h =
    let fmt' = walk time false (c ∷ fmt) [] in
    let size = length fmt' + 1 in
    let limit = max 1024 (size * 16) in
    let wide = reached size (max size capacity) (omega arith) (ground arith) in
    let started : (c == 0) ≡ false = ground (arith, h) in
    rw started (
      λ e. rw e (loop-empty 10 limit (max size capacity) wide),
      λ d text e short.
          rw e (loop-fits 10 limit d text (max size capacity) wide (ground (arith, short))),
    )
