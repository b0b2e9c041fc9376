-- ===== src/Service/Stats.antt =====
-- The counters of a service: inc_stat, set_stat, make_ave and Function_Timer of
-- src/cps_api_operation_service.cpp.
use opx_cps.Common.{ℕ, ◌+◌, ◌-◌, ◌%◌, ◌^◌, ◌||◌, Option, none, some, ltb, ◌==◌, if◌then◌else◌}

-- cps_api_obj_stats_type_t, less cps_api_obj_stat_BEGIN.
abbrev pub set_min_time : ℕ
set_min_time = 0

abbrev pub set_max_time : ℕ
set_max_time = 1

abbrev pub set_ave_time : ℕ
set_ave_time = 2

abbrev pub set_count : ℕ
set_count = 3

abbrev pub get_min_time : ℕ
get_min_time = 4

abbrev pub get_max_time : ℕ
get_max_time = 5

abbrev pub get_ave_time : ℕ
get_ave_time = 6

abbrev pub get_count : ℕ
get_count = 7

abbrev pub ns_connects : ℕ
ns_connects = 8

abbrev pub ns_disconnects : ℕ
ns_disconnects = 9

abbrev pub set_failed : ℕ
set_failed = 10

abbrev pub set_invalid : ℕ
set_invalid = 11

abbrev pub get_failed : ℕ
get_failed = 12

abbrev pub get_invalid : ℕ
get_invalid = 13

abbrev pub process_id : ℕ
process_id = 18

abbrev pub objects_allocated : ℕ
objects_allocated = 19

abbrev pub stat_max : ℕ
stat_max = 20

-- cps_api_obj_stat_BEGIN: (8 << 16) + 1.
abbrev pub stat_begin : ℕ
stat_begin = 524289

abbrev word_mod : ℕ
word_mod = 2 ^ 64

unfoldable pub set_counter : ℕ → ℕ → (ℕ → ℕ) → ℕ → ℕ
set_counter stat val stats k = if k == stat then val else stats k

unfoldable pub inc_stat : ℕ → (ℕ → ℕ) → ℕ → ℕ
unfolding set_counter
inc_stat stat stats = set_counter stat ((stats stat + 1) % word_mod) stats

-- `quotient` is the quotient of two `uint64_t` that the machine computes with a `double`, cut to a
-- `uint64_t`.
unfoldable pub make_ave : (ℕ → ℕ → ℕ) → ℕ → ℕ → ℕ → (ℕ → ℕ) → ℕ → ℕ
unfolding inc_stat set_counter
make_ave quotient stat count val stats =
    let counted = inc_stat count stats in
    let tot = (counted stat + val) % word_mod in
    set_counter stat (quotient tot (counted count)) counted

-- The counters of a Function_Timer.
pub record Timer : Type 0 where
  pub min : ℕ
  pub max : ℕ
  pub ave : ℕ
  pub count : ℕ

unfoldable pub lowest : ℕ → ℕ → (ℕ → ℕ) → ℕ → ℕ
unfolding set_counter
lowest stat diff stats =
    if (stats stat == 0) || ltb diff (stats stat) then set_counter stat diff stats else stats

unfoldable pub highest : ℕ → ℕ → (ℕ → ℕ) → ℕ → ℕ
unfolding set_counter
highest stat diff stats = if ltb (stats stat) diff then set_counter stat diff stats else stats

-- The destructor at the time `now`, of a timer that was started at a time or was not.
unfoldable pub timer_end : (ℕ → ℕ → ℕ) → Timer → Option ℕ → ℕ → (ℕ → ℕ) → ℕ → ℕ
unfolding make_ave inc_stat lowest highest
timer_end quotient t none now stats = inc_stat t.count stats
timer_end quotient t (some tm) now stats =
    let diff = (now + word_mod - tm) % word_mod in
    highest t.max diff (lowest t.min diff (make_ave quotient t.ave t.count diff stats))
