-- ===== src/Volume/Examples.antt =====
-- Runs of the path and timestamp functions and of the selection of a capacity.
use scaleway_file_storage_su.Prelude.{◌<◌, true, false, [], ◌∷◌, ◌≡◌, refl}
use scaleway_file_storage_su.Prelude.Results.{ok}
use scaleway_file_storage_su.Prelude.Texts.{text}
use scaleway_file_storage_su.Volume.Timestamps.{is_canonical_utc}
use scaleway_file_storage_su.Volume.CleanPath.{clean, join}
use scaleway_file_storage_su.Volume.Request.{
  capacity_compatible, select_capacity, select_capacity-compatible,
}

canonical_times :
    (is_canonical_utc (text "2024-02-29T23:59:59.25Z") ≡ true)
    × (is_canonical_utc (text "2023-02-29T23:59:59Z") ≡ false)
    × (is_canonical_utc (text "2023-02-28T23:59:59.250Z") ≡ false)
    × (is_canonical_utc (text "2023-02-28T24:00:00Z") ≡ false)
unfolding is_canonical_utc
canonical_times = (refl, refl, refl, refl)

join_above : join (text "/a/b" ∷ text ".deleted" ∷ text "x/../y" ∷ []) ≡ text "/a/b/.deleted/y"
unfolding join
join_above = refl

clean_up : clean (text "../a/./../../b//c/") ≡ text "../../b/c"
unfolding clean
clean_up = refl

selected_exactly : select_capacity 100 200 ≡ ok 100
unfolding select_capacity
selected_exactly = refl

select_capacity-compatible_example : (capacity_compatible 100 100 200 ≡ true) × (0 < 100)
select_capacity-compatible_example = select_capacity-compatible 100 200 selected_exactly
