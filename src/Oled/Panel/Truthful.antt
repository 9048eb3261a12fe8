-- ===== src/Oled/Panel/Truthful.antt =====
-- crates/bootycall-oled/src/lib.rs: what is logged of the panel.
use booty_call.Prelude.{
  ◌≡◌, refl, ap, sym, ◌||◌, if◌then◌else◌, Bool, true, false, Option, none, some, List, [], ◌∷◌,
}
use mathlib.Core.Path.{subst}
use booty_call.Oled.Framebuffer.{Framebuffer, ensure_open, write_packed}
use booty_call.Oled.Panel.{PanelLog, returned, gone, write_error, latch, present}

abbrev followed_by : Option PanelLog → List PanelLog → List PanelLog
followed_by none ls = ls
followed_by (some l) ls = l ∷ ls

-- The lines logged over frames, each with whether the device opens and takes it.
unfoldable pub panel_log : List (Bool × Bool) → Bool → Framebuffer → List PanelLog
panel_log [] fb_available fb = []
panel_log ((opens, writes) ∷ frames) fb_available fb =
    let p = present opens writes fb_available fb in
    followed_by p.logged (panel_log frames p.fb_available p.fb)

-- What the device does with a frame: it takes it, it is not there, or it fails to take it.
pub data Answer : Type 0 where
  taken absent refused : Answer

abbrev pub is_taken : Answer → Bool
is_taken taken = true
is_taken absent = false
is_taken refused = false

-- A device that is held, or opens, takes the frame or fails.
abbrev pub answer : Bool → Bool × Bool → Answer
answer held (opens, writes) = if held || opens then (if writes then taken else refused) else absent

-- The device is held after a frame that it took, and after no other.
abbrev pub answers : Bool → List (Bool × Bool) → List Answer
answers held [] = []
answers held (frame ∷ frames) = answer held frame ∷ answers (is_taken (answer held frame)) frames

-- The log that the answers call for: `returned` for a frame that was taken after one that was not, `gone` for the
-- first of the frames that the device was not there for, and `write_error` for every failure.
abbrev pub news : Bool → List Answer → List PanelLog
news up [] = []
news true (taken ∷ rest) = news true rest
news false (taken ∷ rest) = returned ∷ news true rest
news true (absent ∷ rest) = gone ∷ news false rest
news false (absent ∷ rest) = news false rest
news up (refused ∷ rest) = write_error ∷ news false rest

panel_log-news :
    (frames : List (Bool × Bool)) (held fb_available : Bool) (fb : Framebuffer)
    → panel_log frames fb_available (record fb { file = held })
      ≡ news fb_available (answers held frames)
unfolding panel_log present latch ensure_open write_packed
panel_log-news [] held a fb = refl
panel_log-news ((opens, true) ∷ frames) true true fb = panel_log-news frames true true fb
panel_log-news ((opens, true) ∷ frames) true false fb =
    ap (λ ls. returned ∷ ls) (panel_log-news frames true true fb)
panel_log-news ((opens, false) ∷ frames) true true fb =
    ap (λ ls. write_error ∷ ls) (panel_log-news frames false false fb)
panel_log-news ((opens, false) ∷ frames) true false fb =
    ap (λ ls. write_error ∷ ls) (panel_log-news frames false false fb)
panel_log-news ((true, true) ∷ frames) false true fb = panel_log-news frames true true fb
panel_log-news ((true, true) ∷ frames) false false fb =
    ap (λ ls. returned ∷ ls) (panel_log-news frames true true fb)
panel_log-news ((true, false) ∷ frames) false true fb =
    ap (λ ls. write_error ∷ ls) (panel_log-news frames false false fb)
panel_log-news ((true, false) ∷ frames) false false fb =
    ap (λ ls. write_error ∷ ls) (panel_log-news frames false false fb)
panel_log-news ((false, writes) ∷ frames) false true fb =
    ap (λ ls. gone ∷ ls) (panel_log-news frames false false fb)
panel_log-news ((false, writes) ∷ frames) false false fb = panel_log-news frames false false fb

-- No line says that the panel is gone.
abbrev pub NoneGone : List PanelLog → Type 0
NoneGone [] = Unit
NoneGone (gone ∷ ls) = ⊥
NoneGone (returned ∷ ls) = NoneGone ls
NoneGone (write_error ∷ ls) = NoneGone ls

-- No line but the first does.
abbrev pub OnlyFirstGone : List PanelLog → Type 0
OnlyFirstGone [] = Unit
OnlyFirstGone (l ∷ ls) = NoneGone ls

-- While the panel is believed to be there only as long as it is held, it is never found gone.
none_gone : (frames : List (Bool × Bool)) (held : Bool) → NoneGone (news held (answers held frames))
none_gone [] held = tt
none_gone ((opens, true) ∷ frames) true = none_gone frames true
none_gone ((opens, false) ∷ frames) true = none_gone frames false
none_gone ((true, true) ∷ frames) false = none_gone frames true
none_gone ((true, false) ∷ frames) false = none_gone frames false
none_gone ((false, writes) ∷ frames) false = none_gone frames false

weaken : (ls : List PanelLog) → NoneGone ls → OnlyFirstGone ls
weaken [] h = tt
weaken (gone ∷ ls) h = absurd h
weaken (returned ∷ ls) h = h
weaken (write_error ∷ ls) h = h

only_first_gone :
    (frames : List (Bool × Bool)) (held fb_available : Bool)
    → OnlyFirstGone (news fb_available (answers held frames))
only_first_gone [] held a = tt
only_first_gone ((opens, true) ∷ frames) true true =
    weaken (news true (answers true frames)) (none_gone frames true)
only_first_gone ((opens, true) ∷ frames) true false = none_gone frames true
only_first_gone ((opens, false) ∷ frames) true true = none_gone frames false
only_first_gone ((opens, false) ∷ frames) true false = none_gone frames false
only_first_gone ((true, true) ∷ frames) false true =
    weaken (news true (answers true frames)) (none_gone frames true)
only_first_gone ((true, true) ∷ frames) false false = none_gone frames true
only_first_gone ((true, false) ∷ frames) false true = none_gone frames false
only_first_gone ((true, false) ∷ frames) false false = none_gone frames false
only_first_gone ((false, writes) ∷ frames) false true = none_gone frames false
only_first_gone ((false, writes) ∷ frames) false false =
    weaken (news false (answers false frames)) (none_gone frames false)

-- However the device comes and goes, the log is the one that its answers call for: `returned` for a frame that was
-- taken when the panel was last not believed there, `gone` for one that it was not there for when it
-- was, an error for every frame that it failed to take, and nothing else. No line but the first can say
-- `gone`: a panel that took a frame is held, and its loss is an error.
pub panel_log-IsTruthful :
    (frames : List (Bool × Bool)) (fb_available : Bool) (fb : Framebuffer)
    → (panel_log frames fb_available fb ≡ news fb_available (answers fb.file frames))
      × OnlyFirstGone (panel_log frames fb_available fb)
panel_log-IsTruthful frames a fb =
    let same = panel_log-news frames fb.file a fb in
    (same, subst OnlyFirstGone (sym same) (only_first_gone frames fb.file a))
