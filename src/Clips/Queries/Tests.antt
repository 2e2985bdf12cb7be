-- ===== src/Clips/Queries/Tests.antt =====
-- The order of a small table.
use mathlib.Core.List.{Permᴰ}
use video_journal_be.Prelude.{
  ℕ, ◌≡◌, refl, ◌≤◌, inl, inr, none, some, List, [], ◌∷◌, All, take, drop, length,
}
use video_journal_be.Text.{codes}
use video_journal_be.Errors.{err, invalid_trim}
use video_journal_be.Models.{Clip}
use video_journal_be.Ffprobe.{ProbeResult}
use video_journal_be.Session.{World}
use video_journal_be.Session.Rows.{find}
use video_journal_be.Clips.Queries.{
  false, previous_clip, next_clip, max_sort_index, list_ordered, earlier, later_of, earlier_of,
  recorded_by, recorded_after, larger,
}
use video_journal_be.Clips.Queries.Sorted.{IsSortedBy, list_ordered_sorted}
use video_journal_be.Clips.Service.{fractional_index, new_clip, patch_clip}
use video_journal_be.Clips.Service.Untimed.{move_to, move_untimed}
use video_journal_be.Clips.Service.Chronology.{
  IsPlaced, IsChronological, HasDistinctTimes, HasRoom, fractional_index-IsPlaced,
}
use video_journal_be.Samples.{
  tools, whole_floats, whole_floats-IsOrdered, clip_one, journal, stored,
}

abbrev clip_two : Clip ℕ
clip_two = record clip_one { id = 2; recorded_at = some 9; sort_index = 2000 }

abbrev rows : List (Clip ℕ)
rows = clip_two ∷ clip_one ∷ []

in_order : IsChronological tools rows
unfolding earlier
in_order = ((inl refl, (inl refl, tt)), ((inr refl, (inl refl, tt)), tt))

apart : HasDistinctTimes tools rows
apart = ((inl refl, (inr refl, tt)), ((inr refl, (inl refl, tt)), tt))

room : HasRoom tools (max_sort_index whole_floats rows) (previous_clip 7 rows) (next_clip 7 rows)
unfolding max_sort_index previous_clip next_clip later_of earlier_of recorded_by recorded_after
    larger fractional_index
room = (refl, refl)

fractional_index-IsPlaced_example :
    All
      (IsPlaced tools 7 (
        fractional_index tools
          (max_sort_index whole_floats rows)
          (previous_clip 7 rows)
          (next_clip 7 rows)))
      rows
fractional_index-IsPlaced_example =
    fractional_index-IsPlaced tools whole_floats-IsOrdered 7 rows in_order apart room

list_ordered_sorted_example :
    (all : List (Clip ℕ)) × Permᴰ rows all
    × IsSortedBy (λ (a b : Clip ℕ). whole_floats.lt a.sort_index b.sort_index) all
    × (list_ordered whole_floats 1 1 rows ≡ take 1 (drop 1 all))
    × (length (list_ordered whole_floats 1 1 rows) ≤ 1)
list_ordered_sorted_example = list_ordered_sorted whole_floats whole_floats-IsOrdered 1 1 rows

abbrev unknown : ProbeResult ℕ
unknown = record {
  duration_s = none;
  width = none;
  height = none;
  codec_name = none;
  recorded_at = none;
}

abbrev untimed : Clip ℕ
untimed = new_clip tools 4 9 (codes "clips/original/x.mov") unknown 5 1000

abbrev with_untimed : World ℕ
with_untimed = record journal { committed = record stored { clips = untimed ∷ [] } }

move_untimed_example :
    patch_clip tools 4 (move_to tools 3000) with_untimed
    ≡ (err invalid_trim, record with_untimed { working = with_untimed.committed; broken = false })
move_untimed_example =
    move_untimed tools 4 9 (codes "clips/original/x.mov") unknown 5 1000 3000 with_untimed refl refl
      found
  where
    found : find (λ (c : Clip ℕ). c.id) 4 with_untimed.committed.clips ≡ some untimed
    found = unfold find new_clip in refl
