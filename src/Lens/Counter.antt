-- ===== src/Lens/Counter.antt =====
-- src/lens_counter.c: a sum for each of two epochs.
use optics.Base.{ℕ, ◌+◌, ◌%◌, ◌^◌, ◌≡◌, ap, ◌∙◌, List, [], ◌∷◌, arith, ◌==◌, if◌then◌else◌}

-- The words are the 64-bit patterns of `int64_t`.
pub record Counter : Type 0 where
  pub value0 : ℕ
  pub value1 : ℕ

abbrev pub word : ℕ → ℕ
word x = x % 2 ^ 64

abbrev pub value : Counter → ℕ → ℕ
value c epoch = if epoch == 0 then c.value0 else c.value1

abbrev pub set_value : Counter → ℕ → ℕ → Counter
set_value c epoch v = if epoch == 0 then record c { value0 = v } else record c { value1 = v }

-- `lens_counter_inc`, a relaxed atomic addition
unfoldable pub inc : Counter → ℕ → ℕ → Counter
inc c epoch v = set_value c epoch (word (value c epoch + v))

-- `lens_counter_read`: the sum goes to the poller's value, and the epoch starts again at 0
unfoldable pub read : Counter → ℕ → ℕ → Counter × ℕ
read c epoch acc = (set_value c epoch 0, word (acc + value c epoch))

-- what recording threads and the poller do to a counter, in any order
pub data Event : Type 0 where
  record_value : (epoch : ℕ) (v : ℕ) → Event
  poll : (epoch : ℕ) → Event

pub step : Counter × ℕ → Event → Counter × ℕ
step (c, acc) (record_value epoch v) = (inc c epoch v, acc)
step (c, acc) (poll epoch) = read c epoch acc

pub run : Counter × ℕ → List Event → Counter × ℕ
unfolding step
run s [] = s
run s (e ∷ es) = run (step s e) es

pub recorded : List Event → ℕ
recorded [] = 0
recorded (record_value epoch v ∷ es) = v + recorded es
recorded (poll epoch ∷ es) = recorded es

-- all that the counter and the poller hold
abbrev pub held : Counter × ℕ → ℕ
held (c, acc) = c.value0 + c.value1 + acc

step-held :
    (s : Counter × ℕ) (e : Event) → word (held (step s e)) ≡ word (held s + recorded (e ∷ []))
unfolding step recorded inc read
step-held (c, acc) (record_value epoch v) = ground arith
step-held (c, acc) (poll epoch) = ground arith

recorded-cons : (e : Event) (es : List Event) → recorded (e ∷ es) ≡ recorded (e ∷ []) + recorded es
unfolding recorded
recorded-cons (record_value epoch v) es = omega arith
recorded-cons (poll epoch) es = omega arith

-- However increments and polls of the two epochs interleave, no increment is lost or counted twice:
-- what the counter and the poller hold at the end is what they held and the sum of the increments,
-- modulo 2^64.
pub run-held :
    (es : List Event) (s : Counter × ℕ) → word (held (run s es)) ≡ word (held s + recorded es)
unfolding run recorded
run-held [] s = ap word (omega arith)
run-held (e ∷ es) s = run-held es (step s e) ∙ omega (arith, step-held s e, recorded-cons e es)
