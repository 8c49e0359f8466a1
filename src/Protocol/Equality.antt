-- ===== src/Protocol/Equality.antt =====
-- The four `operator==` of jobs and results in src/protocol.cpp, by the task: a kind of work and a
-- file.
use exposure.Base.{◌≡◌, refl, Bool, true, false, if◌then◌else◌}
use exposure.Base.Text.{Text, text_eq}
use exposure.Base.Outcome.{ok}
use exposure.Protocol.Command.{
  Job, histogram_job, equalisation_job, Result, histogram_result, equalisation_result, job_eq_job,
  job_eq_result, result_eq_job, result_eq_result, job_filename, result_filename,
}

pub data Kind : Type 0 where
  histogram equalisation : Kind

abbrev pub job_kind : Job → Kind
job_kind (histogram_job f) = histogram
job_kind (equalisation_job f m) = equalisation

abbrev pub result_kind : Result → Kind
result_kind (histogram_result f h) = histogram
result_kind (equalisation_result f t) = equalisation

abbrev pub kind_eq : Kind → Kind → Bool
kind_eq histogram histogram = true
kind_eq histogram equalisation = false
kind_eq equalisation histogram = false
kind_eq equalisation equalisation = true

abbrev pub same_task : Kind → Text → Kind → Text → Bool
same_task k f l g = if kind_eq k l then text_eq f g else false

-- The result is of the job.
abbrev pub answers : Result → Job → Bool
answers r j = same_task (job_kind j) (job_filename j) (result_kind r) (result_filename r)

pub job_eq_result_lem : (j : Job) (r : Result) → job_eq_result j r ≡ ok (answers r j)
unfolding job_eq_result text_eq
job_eq_result_lem (histogram_job f) (histogram_result g h) = refl
job_eq_result_lem (histogram_job f) (equalisation_result g t) = refl
job_eq_result_lem (equalisation_job f m) (histogram_result g h) = refl
job_eq_result_lem (equalisation_job f m) (equalisation_result g t) = refl

result_eq_job_lem :
    (r : Result) (j : Job)
    → result_eq_job r j
      ≡ ok (same_task (result_kind r) (result_filename r) (job_kind j) (job_filename j))
unfolding result_eq_job text_eq
result_eq_job_lem (histogram_result g h) (histogram_job f) = refl
result_eq_job_lem (equalisation_result g t) (histogram_job f) = refl
result_eq_job_lem (histogram_result g h) (equalisation_job f m) = refl
result_eq_job_lem (equalisation_result g t) (equalisation_job f m) = refl

job_eq_job_lem :
    (i j : Job)
    → job_eq_job i j ≡ ok (same_task (job_kind i) (job_filename i) (job_kind j) (job_filename j))
unfolding job_eq_job text_eq
job_eq_job_lem (histogram_job f) (histogram_job g) = refl
job_eq_job_lem (histogram_job f) (equalisation_job g m) = refl
job_eq_job_lem (equalisation_job f m) (histogram_job g) = refl
job_eq_job_lem (equalisation_job f m) (equalisation_job g n) = refl

result_eq_result_lem :
    (r s : Result)
    → result_eq_result r s
      ≡ ok (same_task (result_kind r) (result_filename r) (result_kind s) (result_filename s))
unfolding result_eq_result text_eq
result_eq_result_lem (histogram_result f h) (histogram_result g i) = refl
result_eq_result_lem (histogram_result f h) (equalisation_result g t) = refl
result_eq_result_lem (equalisation_result f t) (histogram_result g h) = refl
result_eq_result_lem (equalisation_result f t) (equalisation_result g u) = refl

-- The equality operators of jobs and results never throw `bad_cast`, and hold exactly if both sides
-- have the same kind of work and the same file name; what else they carry does not count.
pub equality_is_of_tasks :
    (i j : Job) (r s : Result)
    → (job_eq_job i j ≡ ok (same_task (job_kind i) (job_filename i) (job_kind j) (job_filename j)))
      × (job_eq_result j r
          ≡ ok (same_task (job_kind j) (job_filename j) (result_kind r) (result_filename r)))
      × (result_eq_job r j
          ≡ ok (same_task (result_kind r) (result_filename r) (job_kind j) (job_filename j)))
      × (result_eq_result r s
          ≡ ok (same_task (result_kind r) (result_filename r) (result_kind s) (result_filename s)))
equality_is_of_tasks i j r s =
    (job_eq_job_lem i j, job_eq_result_lem j r, result_eq_job_lem r j, result_eq_result_lem r s)
