-- ===== src/Tftp/Loop/Window.antt =====
-- An ACK, a timeout and a retry keep the invariant of the window.
use booty_call.Prelude.{
  ℕ, ◌+◌, ◌-◌, ◌*◌, ◌≤◌, ◌<◌, ◌≡◌, ◌≢◌, inl, inr, refl, sym, true, false, Option, none, some, List,
  [], ◌∷◌, ◌++◌, arith, length, ltb, Bool-cases,
}
use mathlib.Core.Path.{subst}
use booty_call.Tftp.Wire.{Bytes}
use booty_call.Tftp.Blocks.{get-retain_from}
use booty_call.Tftp.Session.{Plan, Session, Round, go, done, End, whole_file, fail_with, all_acked}
use booty_call.Tftp.Session.Window.{Sends, IsWindow, IsSound, IsLast, IsKept, data_packet}
use booty_call.Tftp.Loop.{acked, advance}

Sends-append_right : (x : Bytes) (xs ys : List Bytes) → Sends x ys → Sends x (xs ++ ys)
Sends-append_right x [] ys h = h
Sends-append_right x (z ∷ xs) ys h = inr (Sends-append_right x xs ys h)

module _ (p : Plan) (content : Bytes) (before : List Bytes) where
  -- Every block of the file has been sent, the last one is block `lb`, and all are acknowledged.
  pub record IsWhole (s : Session) : Type 0 where
    pub lb : ℕ
    pub last : s.last_block ≡ some lb
    pub base : s.base ≡ lb + 1
    pub starts : (lb - 1) * p.blksize ≤ length content
    pub ends : length content < lb * p.blksize
    pub sent : (k : ℕ) → 1 ≤ k → k ≤ lb → Sends (data_packet p content before k) s.socket.sent

  abbrev pub IsStep : Round → Type 0
  IsStep (go s) = IsWindow p content before s
  IsStep (done end s) = IsSound p content before s.socket.sent × (end ≡ whole_file → IsWhole s)

  pub kept-IsStep : (r : Round) → IsKept p content before r → IsStep r
  kept-IsStep (go s) h = h
  kept-IsStep (done end s) h = (h.1, λ e. absurd (h.0 e))

  pub sound : (s : Session) → IsWindow p content before s → IsSound p content before s.socket.sent
  sound s h = (h.sent.log, h.sent.log_eq, h.sent.sound)

  pub fail-IsStep :
      (end : End) (reason : Bytes) (now : ℕ) (s : Session)
      → end ≢ whole_file
      → IsWindow p content before s
      → IsStep (fail_with p end reason now s)
  unfolding fail_with
  fail-IsStep end reason now s ne h = (sound s h, λ e. absurd (ne e))

  pub retry-IsWindow :
      (s : Session)
      → IsWindow p content before s
      → IsWindow p content before (record s { retries = s.retries + 1 })
  retry-IsWindow s h = record {
    r = h.r;
    shape = record {
      base_pos = h.shape.base_pos;
      base_next = h.shape.base_next;
      next_read = h.shape.next_read;
      read_window = h.shape.read_window;
      rest = h.shape.rest;
      in_buffer = h.shape.in_buffer;
      unread = h.shape.unread;
      last = h.shape.last;
      unfinished = h.shape.unfinished;
    };
    sent = h.sent;
  }

  pub rewind-IsWindow :
      (s : Session)
      → IsWindow p content before s
      → IsWindow p content before (record s { next_to_send = s.base })
  rewind-IsWindow s h = record {
    r = h.r;
    shape = record {
      base_pos = h.shape.base_pos;
      base_next = omega arith;
      next_read = omega (arith, h.shape.base_next, h.shape.next_read);
      read_window = h.shape.read_window;
      rest = h.shape.rest;
      in_buffer = h.shape.in_buffer;
      unread = h.shape.unread;
      last = h.shape.last;
      unfinished = h.shape.unfinished;
    };
    sent = h.sent;
  }

  pub acked-IsWindow :
      (abs : ℕ) (s : Session)
      → IsWindow p content before s
      → s.base ≤ abs
      → abs < s.next_to_send
      → all_acked (acked abs s) ≡ false
      → IsWindow p content before (acked abs s)
  acked-IsWindow abs s h low high unfinished = record {
    r = h.r;
    shape = record {
      base_pos = omega arith;
      base_next = omega (arith, high);
      next_read = h.shape.next_read;
      read_window = omega (arith, h.shape.read_window, low);
      rest = h.shape.rest;
      in_buffer = λ k above below.
          rw get-retain_from (ground (arith, above, h.shape.in_buffer k (omega arith) below));
      unread = λ k above. rw get-retain_from (ground (arith, h.shape.unread k above));
      last = h.shape.last;
      unfinished = unfinished;
    };
    sent = h.sent;
  }

  pub acked-IsWhole :
      (abs : ℕ) (s : Session)
      → IsWindow p content before s
      → abs < s.next_to_send
      → all_acked (acked abs s) ≡ true
      → IsWhole (acked abs s)
  acked-IsWhole abs s h high finished = whole s.last_block refl h.shape.last finished
    where
      whole :
          (last : Option ℕ)
          → s.last_block ≡ last
          → IsLast p content before h.r last
          → (elim last [ none ↦ false | some lb ↦ ltb lb (abs + 1) ]) ≡ true
          → IsWhole (acked abs s)
      whole none e hl f = cc
      whole (some lb) e (hr, starts, ends) f = record {
        lb = lb;
        last = e;
        base = ground (arith, hr, h.shape.next_read, f);
        starts = starts;
        ends = ends;
        sent = λ k pos le.
            subst (Sends (data_packet p content before k)) (sym h.sent.log_eq)
              (Sends-append_right _ before _ (h.sent.delivered k pos (omega (arith, hr))));
      }

  pub advance-IsStep :
      (abs : ℕ) (s : Session)
      → IsWindow p content before s
      → s.base ≤ abs
      → abs < s.next_to_send
      → IsStep (advance abs s)
  unfolding advance
  advance-IsStep abs s h low high = elim (Bool-cases (all_acked (acked abs s))) [
    | inl finished ↦ rw finished (sound s h, λ e. acked-IsWhole abs s h high finished)
    | inr open_end ↦ rw open_end (elim (Bool-cases (ltb (abs + 1) s.next_to_send)) [
      | inl partial ↦
          rw partial (rewind-IsWindow (acked abs s) (acked-IsWindow abs s h low high open_end))
      | inr exact ↦ rw exact (acked-IsWindow abs s h low high open_end)
    ])
  ]
