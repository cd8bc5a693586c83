-- ===== src/Event/Caching.antt =====
-- include/log4cplus/spi/loggingevent.h and src/loggingevent.cxx: the parts of an event that are read
-- from the thread only when they are asked for, and the copy that is made for another thread.
use log4cplus.Common.{◌≡◌, refl, Bool, true, Text, if◌then◌else◌, arith}
use log4cplus.Common.Map.{Map}
use log4cplus.Event.{LoggingEvent}

-- What the current thread would give.
pub record Context : Type 0 where
  pub ndc : Text
  pub mdc : Map Text
  pub thread : Text
  pub thread2 : Text

pub record CachedEvent : Type 0 where
  pub event : LoggingEvent
  pub thread_cached : Bool
  pub thread2_cached : Bool
  pub ndc_cached : Bool
  pub mdc_cached : Bool

-- `getNDC`, `getMDCCopy`, `getThread` and `getThread2`: the event with the part cached.
unfoldable pub cache_ndc : Context → CachedEvent → CachedEvent
cache_ndc t e =
    if e.ndc_cached
    then e
    else record e { event = record e.event { ndc = t.ndc }; ndc_cached = true }

unfoldable pub cache_mdc : Context → CachedEvent → CachedEvent
cache_mdc t e =
    if e.mdc_cached
    then e
    else record e { event = record e.event { mdc = t.mdc }; mdc_cached = true }

unfoldable pub cache_thread : Context → CachedEvent → CachedEvent
cache_thread t e =
    if e.thread_cached
    then e
    else record e { event = record e.event { thread = t.thread }; thread_cached = true }

unfoldable pub cache_thread2 : Context → CachedEvent → CachedEvent
cache_thread2 t e =
    if e.thread2_cached
    then e
    else record e { event = record e.event { thread2 = t.thread2 }; thread2_cached = true }

unfoldable pub gather_thread_specific_data : Context → CachedEvent → CachedEvent
unfolding cache_ndc cache_mdc cache_thread cache_thread2
gather_thread_specific_data t e = cache_thread2 t (cache_thread t (cache_mdc t (cache_ndc t e)))

-- The copy constructor, which `clone` calls: it reads all of the original, which caches it.
unfoldable pub clone : Context → CachedEvent → CachedEvent × CachedEvent
unfolding gather_thread_specific_data
clone t e =
    let e' = gather_thread_specific_data t e in
    (
      record {
        event = e'.event;
        thread_cached = true;
        thread2_cached = true;
        ndc_cached = true;
        mdc_cached = true;
      },
      e',
    )

-- The event as a thread reads it.
abbrev pub seen : Context → CachedEvent → LoggingEvent
unfolding gather_thread_specific_data
seen t e = (gather_thread_specific_data t e).event

gathered : (t t' : Context) (e : CachedEvent) → seen t' (gather_thread_specific_data t e) ≡ seen t e
unfolding gather_thread_specific_data
gathered t t' e = ground arith

-- A clone reads, on every thread and whatever the contexts are by then, as the event read on the
-- thread that made the clone, and so does the event itself from then on.
pub clone-seen :
    (t t' : Context) (e : CachedEvent)
    → (seen t' (clone t e).0 ≡ seen t e) × (seen t' (clone t e).1 ≡ seen t e)
unfolding clone gather_thread_specific_data
clone-seen t t' e = (refl, gathered t t' e)
