-- ===== src/Study/Examples.antt =====
-- Three attempts at one item, with days in hundredths as a stand-in for floats.
use mathlib.Core.List.{Permᴰ}
use note_rag.Base.{
  ◌≡◌, if◌then◌else◌, ℕ, ◌+◌, ◌-◌, ◌*◌, ◌/◌, refl, Bool, true, false, Option, none, some, List, [],
  ◌∷◌, String, leb, ltb, arith,
}
use text.Mathlib.Text.{◌==◌ as str_eq}
use note_rag.Persistence.Models.{Float}
use note_rag.Study.Scheduling.{
  FloatMath, SchedulerConfig, StudyItem, ReviewRating, DateTime, ReviewAttempt, MemoryState,
  predicted_recall, rebuild,
}
use note_rag.Study.Scheduling.Bounds.{IsAsymmetric, IsWithin, predicted_recall-IsWithin}
use note_rag.Base.Table.{Unique}
use note_rag.Study.Scheduling.Reordered.{rebuild-eq_of_perm}
use note_rag.Study.Scheduling.Rebuilt.{IsSummary, rebuild-IsSummary}

abbrev number : String → Float
number s =
    if str_eq s "0.25"
    then 25
    else if str_eq s "0.35"
    then 35
    else if str_eq s "0.5"
    then 50
    else if str_eq s "0.2"
    then 20
    else if str_eq s "1.0"
    then 100
    else if str_eq s "1.2"
    then 120
    else if str_eq s "1.5"
    then 150
    else if str_eq s "2.0"
    then 200
    else if str_eq s "3.0"
    then 300
    else 0

abbrev hundredths : FloatMath
hundredths = record {
  less = ltb;
  less_eq = leb;
  minus = ◌-◌;
  times = λ a b. a * b / 100;
  over = λ a b. a * 100 / b;
  power = λ a b. a;
  log = λ a b. 23;
  literal = number;
  of_int = λ n. n * 100;
  seconds = λ n. n * 100;
  after_days = λ t d. t + d * 864;
}

hundredths-IsAsymmetric : IsAsymmetric hundredths
hundredths-IsAsymmetric a b = ground arith

abbrev limits : SchedulerConfig
limits = record { recall_threshold = 85; minimum_interval_days = 1; maximum_interval_days = 36500 }

abbrev card : StudyItem
card = record { id = 1; difficulty = 3 }

abbrev attempt : ℕ → Bool → Option Bool → ReviewRating → DateTime → ReviewAttempt
attempt id correct overridden rating at = record {
  id = id;
  correct = correct;
  overridden_correct = overridden;
  rating = rating;
  reviewed_at = at;
}

abbrev attempts : List ReviewAttempt
attempts =
    attempt 1 false none ReviewRating.again (DateTime.naive 500)
    ∷ attempt 2 true none ReviewRating.good (DateTime.zoned 100)
    ∷ attempt 3 false (some true) ReviewRating.easy (DateTime.zoned 900)
    ∷ []

rebuild-IsSummary_example :
    IsSummary hundredths limits attempts (rebuild hundredths limits card attempts)
rebuild-IsSummary_example =
    rebuild-IsSummary hundredths limits card attempts hundredths-IsAsymmetric refl

abbrev in_order : List ReviewAttempt
in_order =
    attempt 2 true none ReviewRating.good (DateTime.zoned 100)
    ∷ attempt 1 false none ReviewRating.again (DateTime.naive 500)
    ∷ attempt 3 false (some true) ReviewRating.easy (DateTime.zoned 900)
    ∷ []

attempts-perm : Permᴰ attempts in_order
attempts-perm = Permᴰ.swap refl refl

attempts-Unique : Unique (λ a. a.id) attempts
attempts-Unique = (
  ((λ e. absurd (omega (arith, e))), ((λ e. absurd (omega (arith, e))), tt)),
  (((λ e. absurd (omega (arith, e))), tt), (tt, tt)),
)

rebuild-eq_of_perm_example :
    rebuild hundredths limits card attempts ≡ rebuild hundredths limits card in_order
rebuild-eq_of_perm_example =
    rebuild-eq_of_perm hundredths limits card attempts in_order attempts-perm attempts-Unique

abbrev remembered : MemoryState
remembered = record {
  study_item_id = 1;
  half_life_days = 90;
  difficulty = 3;
  last_review_at = 500;
  next_review_at = 700;
  predicted_recall = 100;
  successful_reviews = 1;
  failed_reviews = 0;
  scheduler_version = "half-life-v1";
}

predicted_recall-IsWithin_example :
    IsWithin hundredths
      (number "0.0")
      (number "1.0")
      (predicted_recall hundredths remembered (DateTime.zoned 800))
predicted_recall-IsWithin_example =
    predicted_recall-IsWithin hundredths hundredths-IsAsymmetric remembered (DateTime.zoned 800)
      refl
