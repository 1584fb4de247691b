-- ===== src/Lftp/Output.antt =====
-- What a finished lftp process printed (backend/lftpweb/core/lftp.py): the tail that is kept of it
-- and the class of the error it tells of.
use Prim.Native.Char.{code}
use lftpweb.Common.{
  length-append, ◌==◌, ℕ, zero, suc, ◌+◌, ◌-◌, ◌≤◌, String, ◌≡◌, refl, sym, ap, Bool, true, false,
  Option, none, some, List, [], ◌∷◌, ◌++◌, arith, ltb, length, if◌then◌else◌, ◌||◌, inl, inr,
  Bool-cases, ◌∙◌,
}
use lftpweb.Common.Search.{anywhere, begins_folded, after_folded, skip_spaces}

-- The names that `job.error_class` takes: those of `ERROR_PATTERNS`, `UNKNOWN`, and the two that the
-- queue writes itself.
pub data ErrorClass : Type 0 where
  auth_failed permission_denied disk_full local_fs_error remote_gone host_unreachable tls_error :
      ErrorClass
  unknown_error spawn_failed interrupted : ErrorClass

-- `TRANSIENT_ERROR_CLASSES`
abbrev pub is_transient : ErrorClass → Bool
is_transient host_unreachable = true
is_transient tls_error = true
is_transient local_fs_error = true
is_transient _ = false

-- One of the alternatives of a pattern occurs.
unfoldable pub mentions : List String → String → Bool
unfolding anywhere begins_folded
mentions [] s = false
mentions (p ∷ ps) s = anywhere (begins_folded p) s || mentions ps s

-- `\):\s*no such file or directory`
unfoldable rename_end : Option String → Bool
unfolding begins_folded skip_spaces
rename_end none = false
rename_end (some s) = begins_folded "no such file or directory" (skip_spaces s)

-- `[^)]*` and what follows it.
unfoldable after_paren : String → Bool
unfolding rename_end after_folded
after_paren String.[] = false
after_paren (String.◌∷◌ c s) =
    let later = after_paren s in if code c == b')' then rename_end (after_folded ":" s) else later

-- `rename\([^)]*\):\s*no such file or directory`
unfoldable rename_failed : String → Bool
unfolding after_folded after_paren
rename_failed s = elim (after_folded "rename(" s) [ none ↦ false | some rest ↦ after_paren rest ]

abbrev unreachable_texts : List String
unreachable_texts =
    "connection refused" ∷ "could not resolve hostname" ∷ "name or service not known"
    ∷ "max-retries exceeded" ∷ "network is unreachable" ∷ "connection timed out"
    ∷ "no route to host" ∷ []

-- `classify_output`: the first of `ERROR_PATTERNS` that the output matches.
unfoldable pub classify_output : String → ErrorClass
unfolding mentions anywhere rename_failed
classify_output s =
    if mentions ("login failed" ∷ "login incorrect" ∷ "permission denied (publickey" ∷ []) s
    then auth_failed
    else if mentions ("permission denied" ∷ []) s
    then permission_denied
    else if mentions ("no space left on device" ∷ "disk full" ∷ []) s
    then disk_full
    else if anywhere rename_failed s
    then local_fs_error
    else if mentions ("no such file" ∷ "not found on server" ∷ "file not found" ∷ []) s
    then remote_gone
    else if mentions unreachable_texts s
    then host_unreachable
    else if mentions ("tls" ∷ "ssl" ∷ "certificate" ∷ []) s
    then tls_error
    else unknown_error

-- `OUTPUT_TAIL_BYTES`
abbrev pub output_tail_bytes : ℕ
output_tail_bytes = 4096

module _ {ℓ} {A : Type ℓ} where
  -- `xs[n:]`
  unfoldable pub drop : ℕ → List A → List A
  drop zero xs = xs
  drop (suc n) [] = []
  drop (suc n) (x ∷ xs) = drop n xs

  -- `if len(tail) > n: del tail[: len(tail) - n]`
  unfoldable pub trimmed : ℕ → List A → List A
  unfolding drop
  trimmed n xs = if ltb n (length xs) then drop (length xs - n) xs else xs

  -- The loop of `wait_and_capture` over the chunks that are read, each of at least one byte.
  unfoldable pub capture : ℕ → List A → List (List A) → List A
  unfolding trimmed
  capture n tail [] = tail
  capture n tail (chunk ∷ chunks) = capture n (trimmed n (tail ++ chunk)) chunks

  -- All that was printed.
  abbrev pub concat : List (List A) → List A
  concat [] = []
  concat (chunk ∷ chunks) = chunk ++ concat chunks

  -- The last `n` members, or all where there are fewer.
  abbrev pub last_of : ℕ → List A → List A
  last_of n xs = drop (length xs - n) xs

  length-drop : (n : ℕ) (xs : List A) → length (drop n xs) ≡ length xs - n
  unfolding drop
  length-drop zero xs = omega arith
  length-drop (suc n) [] = omega arith
  length-drop (suc n) (x ∷ xs) = omega (arith, length-drop n xs)

  drop_nil : (n : ℕ) → drop n [] ≡ []
  unfolding drop
  drop_nil zero = refl
  drop_nil (suc n) = refl

  drop-drop : (m n : ℕ) (xs : List A) → drop m (drop n xs) ≡ drop (n + m) xs
  unfolding drop
  drop-drop m zero xs = ground arith
  drop-drop m (suc n) [] = ground (arith, drop_nil m, drop_nil (suc n + m))
  drop-drop m (suc n) (x ∷ xs) =
      let shift : suc n + m ≡ suc (n + m) = omega arith in rw shift (drop-drop m n xs)

  drop-append : (n : ℕ) (xs ys : List A) → n ≤ length xs → drop n (xs ++ ys) ≡ drop n xs ++ ys
  unfolding drop
  drop-append zero xs ys h = refl
  drop-append (suc n) [] ys h = absurd (omega arith)
  drop-append (suc n) (x ∷ xs) ys h = drop-append n xs ys (omega arith)

  append_nil : (xs : List A) → xs ++ [] ≡ xs
  append_nil [] = refl
  append_nil (x ∷ xs) = cc (append_nil xs)

  append_assoc : (xs ys zs : List A) → (xs ++ ys) ++ zs ≡ xs ++ (ys ++ zs)
  append_assoc [] ys zs = refl
  append_assoc (x ∷ xs) ys zs = cc (append_assoc xs ys zs)

  trimmed-last_of : (n : ℕ) (xs : List A) → trimmed n xs ≡ last_of n xs
  unfolding trimmed drop
  trimmed-last_of n xs = elim (Bool-cases (ltb n (length xs))) [
    | inl e ↦ rw e refl
    | inr e ↦ let none_over : length xs - n ≡ 0 = ground arith in rw e (rw none_over refl)
  ]

  -- What is dropped before the next chunk would be dropped after it as well.
  last_of-append : (n : ℕ) (xs ys : List A) → last_of n (last_of n xs ++ ys) ≡ last_of n (xs ++ ys)
  last_of-append n xs ys =
      let over = length xs - n in
      let front : drop over xs ++ ys ≡ drop over (xs ++ ys) =
        sym (drop-append over xs ys (omega arith)) in
      let size : over + (length (drop over (xs ++ ys)) - n) ≡ length (xs ++ ys) - n =
        omega (arith, length-drop over (xs ++ ys), length-append xs ys) in
      rw front (
        drop-drop (length (drop over (xs ++ ys)) - n) over (xs ++ ys)
        ∙ ap (λ k. drop k (xs ++ ys)) size)

  capture_from :
      (n : ℕ) (xs : List A) (chunks : List (List A))
      → capture n (last_of n xs) chunks ≡ last_of n (xs ++ concat chunks)
  unfolding capture
  capture_from n xs [] = ap (last_of n) (sym (append_nil xs))
  capture_from n xs (chunk ∷ chunks) =
      let kept : trimmed n (last_of n xs ++ chunk) ≡ last_of n (xs ++ chunk) =
        trimmed-last_of n (last_of n xs ++ chunk) ∙ last_of-append n xs chunk in
      rw kept (
        capture_from n (xs ++ chunk) chunks
        ∙ ap (last_of n) (append_assoc xs chunk (concat chunks)))

  -- However the output comes in chunks, the buffer ends as the last `n` bytes of all of it, or as
  -- all of it where there are fewer.
  pub capture-last_of :
      (n : ℕ) (chunks : List (List A)) → capture n [] chunks ≡ last_of n (concat chunks)
  capture-last_of n chunks = rw (sym (drop_nil (0 - n))) (capture_from n [] chunks)
