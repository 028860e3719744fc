-- ===== src/Server/InputMonitor/Runs.antt =====
-- What the input monitor (server/input-monitor.cpp) answers to a whole sequence of expected key presses.
use mathlib.Core.List.{append_assoc, append-nil}
use vasum.Prelude.{
  ◌+◌, ◌≡◌, refl, sym, ap, ◌∙◌, Bool, true, false, List, [], ◌∷◌, ◌++◌, Option, some, arith, length,
  length-append, All, if◌then◌else◌,
}
use vasum.Prelude.Int.{unsigned_int}
use vasum.Server.InputMonitor.{
  InputConfig, InputEvent, Timeval, is_expected_kind, in_window, is_expected_event_sequence, feed,
}
use vasum.Server.InputMonitor.Buffer.{
  is_expected_event_sequence-full, is_expected_event_sequence-short,
}

abbrev pub times : List InputEvent → List Timeval
times [] = []
times (ie ∷ ies) = ie.time ∷ times ies

-- No report for any of these events.
abbrev pub silent : List InputEvent → List Bool
silent [] = []
silent (ie ∷ ies) = false ∷ silent ies

abbrev pub Expected : InputConfig → InputEvent → Type 0
Expected c ie = is_expected_kind c ie ≡ true

-- What is left in the buffer: nothing after a report, and else all times but the oldest.
abbrev pub left : Bool → List Timeval → List Timeval
left true ts = []
left false ts = ts

if-left :
    (b : Bool) (ts : List Timeval)
    → ◌≡◌ {A = Option (Bool × List Timeval)}
        (if b then some (true, []) else some (false, ts))
        (some (b, left b ts))
if-left true ts = refl
if-left false ts = refl

one_more :
    (c : InputConfig) (ts mid end : List Timeval) (ie : InputEvent) (ies : List InputEvent)
    (b : Bool) (bs : List Bool)
    → is_expected_event_sequence c ts ie ≡ some (b, mid)
    → feed c mid ies ≡ some (bs, end)
    → feed c ts (ie ∷ ies) ≡ some (b ∷ bs, end)
unfolding feed
one_more c ts mid end ie ies b bs e run = ground arith

nothing_more : (c : InputConfig) (ts : List Timeval) → feed c ts [] ≡ some ([], ts)
unfolding feed
nothing_more c ts = refl

-- With times in the buffer already.
feed_from :
    (c : InputConfig) (oldest : Timeval) (ts : List Timeval) (ies : List InputEvent)
    (latest : InputEvent)
    → All (Expected c) ies
    → Expected c latest
    → length (oldest ∷ ts) + length ies + 1 ≡ unsigned_int c.number_of_events
    → feed c (oldest ∷ ts) (ies ++ latest ∷ [])
      ≡ some (
        silent ies ++ in_window c oldest latest.time ∷ [],
        left (in_window c oldest latest.time) ((ts ++ times ies) ++ latest.time ∷ []),
      )
feed_from c oldest ts [] latest es e count =
    one_more c (oldest ∷ ts) _ _ latest [] _ []
      (is_expected_event_sequence-full c oldest ts latest e (omega arith) ∙ if-left _ _)
      (nothing_more c _
        ∙ ap (λ l. some ([], left (in_window c oldest latest.time) (l ++ latest.time ∷ [])))
            (sym (append-nil ts)))
feed_from c oldest ts (ie ∷ ies) latest (k, ks) e count =
    one_more c (oldest ∷ ts) _ _ ie (ies ++ latest ∷ []) false _
      (is_expected_event_sequence-short c (oldest ∷ ts) ie (omega arith) k)
      (feed_from c oldest (ts ++ ie.time ∷ []) ies latest ks e
          (omega (arith, length-append ts (ie.time ∷ [])))
        ∙ ap
            (λ l. some (
              silent ies ++ in_window c oldest latest.time ∷ [],
              left (in_window c oldest latest.time) (l ++ latest.time ∷ []),
            ))
            (append_assoc ts (ie.time ∷ []) (times ies)))

-- From an empty buffer, as many expected key presses as are configured, two at least: none but the last is reported, and the
-- last one is reported exactly if it lies within the window of the first. After a report the buffer is empty, and else it has
-- the times of all but the first, so that the next press is compared with the second.
pub feed-count :
    (c : InputConfig) (oldest : InputEvent) (ies : List InputEvent) (latest : InputEvent)
    → Expected c oldest
    → All (Expected c) ies
    → Expected c latest
    → length ies + 2 ≡ unsigned_int c.number_of_events
    → feed c [] (oldest ∷ (ies ++ latest ∷ []))
      ≡ some (
        silent (oldest ∷ ies) ++ in_window c oldest.time latest.time ∷ [],
        left (in_window c oldest.time latest.time) (times ies ++ latest.time ∷ []),
      )
feed-count c oldest ies latest first ks e count =
    one_more c [] _ _ oldest (ies ++ latest ∷ []) false _
      (is_expected_event_sequence-short c [] oldest (omega arith) first)
      (feed_from c oldest.time [] ies latest ks e (omega arith))
