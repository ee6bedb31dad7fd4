-- ===== src/IrqKey/Tests.antt =====
-- The theorems about dirver/char_drv_demo on short histories.
use quick_start.Common.{
  ℕ, ◌≡◌, ◌≢◌, ◌<◌, ◌≤◌, refl, List, [], ◌∷◌, ◌++◌, true, false, some, if◌then◌else◌,
}
use quick_start.IrqKey.Sig
use quick_start.IrqKey.Polled

abbrev newer : List Sig.Event
newer = Sig.Event.poll ∷ Sig.Event.read true 1 ∷ Sig.Event.read true 4 ∷ []

abbrev older : List Sig.Event
older = Sig.Event.interrupt 0 ∷ Sig.Event.fasync true ∷ []

behind-key_example :
    (Sig.key_poll (Sig.behind (newer ++ Sig.Event.interrupt 1 ∷ older)) ≡ false)
    × (let d = Sig.behind (newer ++ Sig.Event.interrupt 1 ∷ older) in
        (1 < 2 → Sig.key_read true 1 d ≡ Sig.one (some 1) (record d { ev_press = 0 }))
        × (2 ≤ 1 → Sig.key_read true 1 d ≡ Sig.one (some 100) (record d { ev_press = 0 }))
        × (◌≢◌ {A = ℕ} 4 1 → Sig.key_read true 4 d ≡ Sig.einval))
behind-key_example = Sig.behind-key 1 4 newer older refl

abbrev presses : List Polled.Event
presses = Polled.Event.interrupted ∷ Polled.Event.reads 1 ∷ Polled.Event.interrupted ∷ []

behind-never_example :
    (Polled.key_poll (Polled.behind presses) ≡ false)
    × ((Polled.step Polled.Event.interrupted (Polled.behind presses)).1 ≡ Polled.behind presses)
    × ((Polled.key_read 1 (Polled.behind presses)).0 ≡ Polled.sleeps)
    × (Polled.step Polled.Event.signalled (Polled.behind presses) ≡ (
        if (Polled.behind presses).waiting
        then (Polled.copied 0, record (Polled.behind presses) { waiting = false })
        else (Polled.nothing, Polled.behind presses)))
behind-never_example = Polled.behind-never presses
