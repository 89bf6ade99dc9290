-- ===== src/Tests/Timers.antt =====
-- src/flame/time/ticker.cpp: a ticker that has fired twice, and is started again in its callable.
use php_flame.Prelude.{refl, true, some, [], ◌∷◌}
use php_flame.Time.Ticker.{
  Ticker, started, construct, repeats, start, fired, called, tick_cb, after_cb, tick, Reach,
  at_once, more, fires, ends, starts_it,
}
use php_flame.Time.Ticker.Living.{IsKept, tick-IsKept}

abbrev every_second : Ticker
every_second = record {
  interval = 1000;
  repeat = true;
  cb = some 5;
  timer = started 1000 1000;
  ref = true;
  starts = [];
}

abbrev later : Ticker
later = record every_second { starts = 5 ∷ 5 ∷ [] }

later-Reach : Reach every_second later
unfolding tick_cb after_cb fired called start
later-Reach =
    more (more (more (more at_once (fires 1000 1000 refl)) (starts_it 5)) ends)
      (fires 1000 1000 refl)

tick-IsKept_example : IsKept later
tick-IsKept_example =
    tick-IsKept {t = every_second} 1000 5 (unfold tick construct repeats start in refl) later-Reach
