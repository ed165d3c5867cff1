-- ===== src/Queue/Bulk.antt =====
-- What a bulk of tasks leaves in Redis.
use ats_smart_backend.Prelude.{
  Bool-cases, inl, inr, ℕ, zero, suc, ◌+◌, ◌*◌, ◌/◌, ◌≤◌, ◌<◌, ◌≡◌, refl, sym, ◌∙◌, ap, none, some,
  List, [], ◌∷◌, ◌++◌, map, length, take, drop, leb, if◌then◌else◌, arith, append_assoc, append_nil,
}
use ats_smart_backend.Search.{Text}
use ats_smart_backend.Queue.{
  Function, Job, with_options, only_queue, get_or, enqueue_chunks, enqueue_bulk_sync, enqueue_bulk,
}

zero_plus : (k : ℕ) → 0 + k ≡ k
zero_plus k = omega arith

take-none : {A : Type 0} (n : ℕ) → take {A = A} n [] ≡ []
take-none zero = refl
take-none (suc n) = refl

suc_plus : (m k : ℕ) → suc m + k ≡ suc (m + k)
suc_plus m k = omega arith

drop-none : {A : Type 0} (n : ℕ) → drop {A = A} n [] ≡ []
drop-none zero = refl
drop-none (suc n) = refl

take-more : {A : Type 0} (m k : ℕ) (xs : List A) → take (m + k) xs ≡ take m xs ++ take k (drop m xs)
take-more zero k xs = ap (λ n. take n xs) (zero_plus k)
take-more (suc m) k [] = take-none (suc m + k) ∙ sym (take-none k)
take-more (suc m) k (x ∷ xs) =
    ap (λ n. take n (x ∷ xs)) (suc_plus m k) ∙ ap (λ t. x ∷ t) (take-more m k xs)

drop-more : {A : Type 0} (m k : ℕ) (xs : List A) → drop (m + k) xs ≡ drop k (drop m xs)
drop-more zero k xs = ap (λ n. drop n xs) (zero_plus k)
drop-more (suc m) k [] = drop-none (suc m + k) ∙ sym (drop-none k)
drop-more (suc m) k (x ∷ xs) = ap (λ n. drop n (x ∷ xs)) (suc_plus m k) ∙ drop-more m k xs

length-take-drop :
    {A : Type 0} (m : ℕ) (xs : List A) → length (take m xs) + length (drop m xs) ≡ length xs
length-take-drop zero xs = omega arith
length-take-drop (suc m) [] = omega arith
length-take-drop (suc m) (x ∷ xs) = omega (arith, length-take-drop m xs)

length-drop_le : {A : Type 0} (m k : ℕ) (xs : List A) → length xs ≤ m + k → length (drop m xs) ≤ k
length-drop_le zero k xs h = omega (arith, h)
length-drop_le (suc m) k [] h = omega arith
length-drop_le (suc m) k (x ∷ xs) h = length-drop_le m k xs (omega (arith, h))

map-append : {A B : Type 0} (f : A → B) (a b : List A) → map f (a ++ b) ≡ map f a ++ map f b
map-append f [] b = refl
map-append f (x ∷ a) b = ap (λ t. f x ∷ t) (map-append f a b)

none_left : {A : Type 0} (xs : List A) → length xs ≤ 0 → xs ≡ []
none_left [] h = refl
none_left (x ∷ xs) h = absurd (omega (arith, h))

module _ (func : Function) (queue_name : Text) (args_list : List (List ℕ)) where
  job_of : List ℕ → Job
  job_of = with_options func (only_queue queue_name)

  left :
      (start chunks : ℕ)
      → length (drop start args_list) ≤ suc chunks * 500
      → length (drop (start + 500) args_list) ≤ chunks * 500
  left start chunks h =
      rw (drop-more start 500 args_list)
        (length-drop_le 500 (chunks * 500) (drop start args_list) (omega (arith, h)))

  five_hundred : (n : ℕ) → suc n * 500 ≡ 500 + n * 500
  five_hundred n = omega arith

  one_more :
      (start answers : ℕ)
      → map job_of (take 500 (drop start args_list))
          ++ map job_of (take (answers * 500) (drop (start + 500) args_list))
        ≡ map job_of (take (suc answers * 500) (drop start args_list))
  one_more start answers =
      rw
        (
          five_hundred answers,
          take-more 500 (answers * 500) (drop start args_list),
          drop-more start 500 args_list,
          map-append job_of (take 500 (drop start args_list))
              (take (answers * 500) (drop 500 (drop start args_list))),
        )
        refl

  -- The loop from `start` on: the jobs that it adds, and its count
  chunks-added :
      (chunks start answers total : ℕ) (jobs : List Job)
      → length (drop start args_list) ≤ chunks * 500
      → (enqueue_chunks func queue_name args_list chunks start answers total jobs).0
        ≡ jobs ++ map job_of (take (answers * 500) (drop start args_list))
  unfolding enqueue_chunks job_of
  chunks-added zero start answers total jobs h =
      rw (none_left (drop start args_list) (omega (arith, h)), take-none (answers * 500))
        (sym (append_nil jobs))
  chunks-added (suc chunks) start zero total jobs h = sym (append_nil jobs)
  chunks-added (suc chunks) start (suc answers) total jobs h =
      chunks-added chunks (start + 500) answers (total + length (take 500 (drop start args_list)))
        (jobs ++ map job_of (take 500 (drop start args_list))) (left start chunks h)
      ∙ append_assoc jobs (map job_of (take 500 (drop start args_list)))
          (map job_of (take (answers * 500) (drop (start + 500) args_list)))
      ∙ ap (λ t. jobs ++ t) (one_more start answers)

  counted :
      (start total : ℕ)
      → total + length (take 500 (drop start args_list)) + length (drop (start + 500) args_list)
        ≡ total + length (drop start args_list)
  counted start total =
      rw (drop-more start 500 args_list)
        (omega (arith, length-take-drop 500 (drop start args_list)))

  chunks-count :
      (chunks start answers total : ℕ) (jobs : List Job)
      → length (drop start args_list) ≤ chunks * 500
      → chunks ≤ answers
      → (enqueue_chunks func queue_name args_list chunks start answers total jobs).1
        ≡ some (total + length (drop start args_list))
  unfolding enqueue_chunks
  chunks-count zero start answers total jobs h k = ap some (omega (arith, h))
  chunks-count (suc chunks) start zero total jobs h k = absurd (omega (arith, k))
  chunks-count (suc chunks) start (suc answers) total jobs h k =
      chunks-count chunks (start + 500) answers (total + length (take 500 (drop start args_list)))
        (jobs ++ map (with_options func (only_queue queue_name)) (take 500 (drop start args_list)))
        (left start chunks h) (omega (arith, k))
      ∙ ap some (counted start total)

  chunks-failed :
      (chunks start answers total : ℕ) (jobs : List Job)
      → answers < chunks
      → (enqueue_chunks func queue_name args_list chunks start answers total jobs).1 ≡ none
  unfolding enqueue_chunks
  chunks-failed zero start answers total jobs k = absurd (omega (arith, k))
  chunks-failed (suc chunks) start zero total jobs k = refl
  chunks-failed (suc chunks) start (suc answers) total jobs k =
      chunks-failed chunks (start + 500) answers (total + length (take 500 (drop start args_list)))
        (jobs ++ map (with_options func (only_queue queue_name)) (take 500 (drop start args_list)))
        (omega (arith, k))

  -- The chunks that hold all tasks
  chunks_of : ℕ
  chunks_of = (length args_list + 499) / 500

  enough : length args_list ≤ chunks_of * 500
  unfolding chunks_of
  enough = omega arith

  -- A bulk puts the first 500 tasks into Redis for each answer of it, in order and in the queue that is
  -- named, and nothing else; it returns how many tasks there are when Redis answers for all of them, and 0
  -- when Redis does not, whatever was put into it before.
  pub enqueue_bulk-jobs :
      (answers : ℕ) (jobs : List Job)
      → enqueue_bulk answers func args_list queue_name jobs ≡ (
        jobs ++ map (with_options func (only_queue queue_name)) (take (answers * 500) args_list),
        if leb (length args_list) (answers * 500) then length args_list else 0,
      )
  unfolding enqueue_bulk enqueue_bulk_sync job_of chunks_of get_or
  enqueue_bulk-jobs answers jobs = elim (Bool-cases (leb (length args_list) (answers * 500))) [
    | inl all ↦
        rw
          (
            all,
            chunks-added chunks_of 0 answers 0 jobs enough,
            chunks-count chunks_of 0 answers 0 jobs enough (ground arith),
            zero_plus (length args_list),
          )
          refl
    | inr some_left ↦
        rw
          (
            some_left,
            chunks-added chunks_of 0 answers 0 jobs enough,
            chunks-failed chunks_of 0 answers 0 jobs (ground arith),
          )
          refl
  ]
