-- ===== src/Tests/ExperienceAgent.antt =====
-- The agent on a work history in two calendars.
use ats_smart_backend.Prelude.{
  codes, ◌≤◌, ◌≡◌, refl, Bool, false, Option, none, String, List, [], ◌∷◌, arith,
}
use ats_smart_backend.Experience.{Entry, analyze_work_experience}
use ats_smart_backend.Experience.Coverage.{covered, count_below}
use ats_smart_backend.Experience.Validity.{valid_years}
use ats_smart_backend.ExperienceAgent.{run_experience_agent, Level, peak, roles_in}
use ats_smart_backend.ExperienceAgent.Totals.{sum_lengths, roles_in-peak}
use ats_smart_backend.ExperienceAgent.Calendar.{
  in_gregorian, run_experience_agent-covered, run_experience_agent-no_overlaps,
}
use ats_smart_backend.Tests.Experience.{digit, is_space, lower, job, work_experience}

abbrev search : Level → Option String → Bool
search level title = false

-- 1398-1401 is 2019-2022, and two of its three years are in 2020-2026 too.
total :
    (run_experience_agent digit is_space lower 2026 search none []
      work_experience).total_experience_years
    ≡ 7
unfolding run_experience_agent
total = refl

run_experience_agent-covered_example :
    (run_experience_agent digit is_space lower 2026 search none []
      work_experience).total_experience_years
    ≡ count_below 2026 (
        covered (
          in_gregorian
            (valid_years ((analyze_work_experience digit is_space lower 2026 work_experience).1))))
run_experience_agent-covered_example =
    run_experience_agent-covered digit is_space lower 2026 search none [] work_experience
      (omega arith, omega arith)

abbrev two_jobs : List Entry
two_jobs = job (codes "1390 - 1395") ∷ job (codes "2020 - 2023") ∷ []

apart : (run_experience_agent digit is_space lower 2026 search none [] two_jobs).overlaps_found ≡ []
unfolding run_experience_agent
apart = refl

run_experience_agent-no_overlaps_example :
    (run_experience_agent digit is_space lower 2026 search none [] two_jobs).total_experience_years
    ≡ sum_lengths (
        in_gregorian (valid_years ((analyze_work_experience digit is_space lower 2026 two_jobs).1)))
run_experience_agent-no_overlaps_example =
    run_experience_agent-no_overlaps digit is_space lower 2026 search none [] two_jobs
      (omega arith, omega arith) apart

roles_in-peak_example :
    roles_in 2011 ((2010, 2014) ∷ (2011, 2013) ∷ []) ≤ peak ((2010, 2014) ∷ (2011, 2013) ∷ [])
roles_in-peak_example = roles_in-peak 2011 ((2010, 2014) ∷ (2011, 2013) ∷ [])
