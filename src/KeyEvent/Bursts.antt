-- ===== src/KeyEvent/Bursts.antt =====
-- From the driver of dirver/keyevent/module to the process of dirver/keyevent/process, event by event.
use quick_start.Common.{
  ℕ, ◌≤◌, ◌≡◌, refl, ap, ◌∙◌, List, [], ◌∷◌, map, true, false, none, some, take, take-all, length,
  ltb, Bool-cases, inl, inr, arith,
}
use quick_start.KeyEvent.Device.{Device, efault, count}
use quick_start.KeyEvent.Transfer.{IsValid}
use quick_start.KeyEvent.Mailbox.{
  Call, sets, polls, reads, AllProvided, Answer, nothing, ready, delivered, wrote, handed, calls,
  Boxes, answers, boxes, calls-refine,
}
use quick_start.KeyEvent.Process.{
  Polling, no_input, input, event_loop, recv_max_buf_size, terminated, AllFit, inputs, classify,
  event_loop-terminated,
}

-- Events that are triggered one behind the other, the last of them apart.
pub record Burst : Type 0 where
  pub before : List (List ℕ)
  pub last : List ℕ

abbrev set : List ℕ → Call
set event = sets event (length event)

-- The calls for a burst: the kernel triggers its events, and then the process polls and reads.
abbrev behind_sets : List (List ℕ) → List Call → List Call
behind_sets [] cs = cs
behind_sets (event ∷ events) cs = set event ∷ behind_sets events cs

abbrev pub bursts : List Burst → List Call
bursts [] = []
bursts (b ∷ bs) =
    behind_sets b.before (set (terminated b.last) ∷ polls ∷ reads recv_max_buf_size ∷ bursts bs)

-- What the process sees of the driver's answers.
unfoldable pub seen : List Answer → List Polling
seen [] = []
seen (ready false ∷ rest) = no_input ∷ seen rest
seen (delivered efault bytes ∷ rest) = input none ∷ seen rest
seen (delivered (count n) bytes ∷ rest) = input (some bytes) ∷ seen rest
seen (ready true ∷ rest) = seen rest
seen (nothing ∷ rest) = seen rest
seen (wrote r ∷ rest) = seen rest
seen (handed n bytes ∷ rest) = seen rest

abbrev pub lasts : List Burst → List (List ℕ)
lasts = map (λ b. b.last)

sets-AllProvided :
    (events : List (List ℕ)) (cs : List Call) → AllProvided cs → AllProvided (behind_sets events cs)
sets-AllProvided [] cs h = h
sets-AllProvided (event ∷ events) cs h = (omega arith, sets-AllProvided events cs h)

pub bursts-AllProvided : (bs : List Burst) → AllProvided (bursts bs)
bursts-AllProvided [] = tt
bursts-AllProvided (b ∷ bs) =
    sets-AllProvided b.before _ (omega arith, (tt, (tt, bursts-AllProvided bs)))

-- Events on their own show the process nothing.
seen-sets :
    (events : List (List ℕ)) (cs : List Call) (ps : List Polling)
    → ((b : Boxes) → seen (answers cs b) ≡ ps)
    → (b : Boxes) → seen (answers (behind_sets events cs) b) ≡ ps
unfolding seen
seen-sets [] cs ps h b = h b
seen-sets (event ∷ events) cs ps h b = elim (Bool-cases (ltb 256 (length event))) [
  | inl e ↦ rw e (seen-sets events cs ps h b)
  | inr e ↦
      rw e
        (seen-sets events cs ps h (record b { event = take (length event) event; is_new = true }))
]

-- The last event of a burst is what the process reads.
seen-last :
    (w : List ℕ) (cs : List Call) (ps : List Polling)
    → length (terminated w) ≤ recv_max_buf_size
    → ((b : Boxes) → seen (answers cs b) ≡ ps)
    → (b : Boxes)
    → seen (answers (set (terminated w) ∷ polls ∷ reads recv_max_buf_size ∷ cs) b)
      ≡ input (some (terminated w)) ∷ ps
unfolding seen
seen-last w cs ps f h b =
    let m = terminated w in
    let short : ltb 256 (length (terminated w)) ≡ false = ground arith in
    let whole = take-all (length m) m (omega arith) in
    rw (short, whole) (ap (◌∷◌ (input (some m))) (h (record b { event = m; is_new = false })))

pub seen-bursts :
    (bs : List Burst)
    → AllFit recv_max_buf_size (lasts bs)
    → (b : Boxes) → seen (answers (bursts bs) b) ≡ inputs (lasts bs)
unfolding seen
seen-bursts [] h b = refl
seen-bursts (x ∷ bs) h b =
    seen-sets x.before _ _
      (seen-last x.last (bursts bs) (inputs (lasts bs)) h.1 (seen-bursts bs h.2)) b

-- From the driver to the process: where events come in bursts and the process polls and reads behind
-- each, it handles just the last event of every burst, by its own text, in the order of the bursts; the
-- other events of a burst are lost. The last events must be sent with their NUL and leave room in the
-- buffer of the process.
pub bursts-handled :
    (bits : ℕ) (bs : List Burst) (buf : List ℕ) (d : Device)
    → IsValid d
    → length buf ≡ recv_max_buf_size
    → AllFit recv_max_buf_size (lasts bs)
    → (given : List Answer) × (calls bits (bursts bs) d ≡ some given)
      × (event_loop buf (seen given) ≡ some (map classify (lasts bs)))
bursts-handled bits bs buf d v l h = (
  answers (bursts bs) (boxes d),
  calls-refine bits (bursts bs) d v (bursts-AllProvided bs),
  ap (event_loop buf) (seen-bursts bs h (boxes d)) ∙ event_loop-terminated (lasts bs) buf (rw l h),
)
