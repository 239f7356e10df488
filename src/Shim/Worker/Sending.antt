-- ===== src/Shim/Worker/Sending.antt =====
-- What `dispatch_to_worker` writes for a worker (src/rlbox_process_sandbox_shim.cpp).
use mathlib.Core.List.{append_assoc, append-nil}
use rlbox_dynamic_sandbox.Common.{
  ℕ, ◌+◌, ◌*◌, ◌<◌, ◌≤◌, ◌≡◌, ◌∙◌, refl, sym, ap, ap₂, arith, true, false, List, [], ◌++◌, none,
  length, length-append, take, Bool-cases, inl, inr, ltb, ◌==◌, if◌then◌else◌,
}
use rlbox_dynamic_sandbox.Abi.{k_max_args}
use rlbox_dynamic_sandbox.Shim.Pipe.{ReadEvent, WriteEvent, write_full}
use rlbox_dynamic_sandbox.Shim.Pipe.Gather.{
  carried, IsSound, read_full_gathers, read_full_short, length-drop, take-append_short,
}
use rlbox_dynamic_sandbox.Shim.Pipe.Sent.{write_full_prefix, write_full_cut}
use rlbox_dynamic_sandbox.Shim.Wire.{WireJobHeader, header_bytes, array_bytes, read_header}
use rlbox_dynamic_sandbox.Shim.Wire.RoundTrip.{
  take-append, length-array_bytes, length-header_bytes, read_header-header_bytes,
}
use rlbox_dynamic_sandbox.Shim.Worker.{Job, read_arguments, check_job, read_job, send_job, ◌>>=◌}
use rlbox_dynamic_sandbox.Shim.Worker.Protocol.{
  IsWire, header_of, exact_header, header_of-exact, job_bytes,
}

whole_if_done :
    (buf : List ℕ) (ws : List WriteEvent)
    → (write_full buf ws).done ≡ true
    → (write_full buf ws).sent ≡ buf
whole_if_done buf ws e =
    let (rest, whole, none_left) = write_full_prefix buf ws in
    sym (append-nil (write_full buf ws).sent)
    ∙ ap (λ r. (write_full buf ws).sent ++ r) (sym (none_left e))
    ∙ whole

rest_if_cut :
    (buf : List ℕ) (ws : List WriteEvent)
    → (write_full buf ws).done ≡ false
    → (rest : List ℕ) × ((write_full buf ws).sent ++ rest ≡ buf) × (0 < length rest)
rest_if_cut buf ws e =
    let (rest, whole, none_left) = write_full_prefix buf ws in
    let total = sym (length-append (write_full buf ws).sent rest) ∙ ap length whole in
    (rest, whole, omega (arith, total, write_full_cut buf ws e))

-- When every write succeeds, the bytes of the job went into the pipe.
pub send_job-done :
    (job : Job) (ws : List WriteEvent)
    → (send_job job ws).done ≡ true
    → (send_job job ws).sent ≡ job_bytes job
unfolding send_job
send_job-done job ws e =
    let first = write_full (header_bytes (header_of job)) ws in
    let tags = array_bytes 4 job.arg_tags in
    let second = write_full tags first.writes in
    let values = array_bytes 8 job.arg_values in
    elim (Bool-cases first.done) [
      | inr cut ↦ absurd (ground arith)
      | inl d1 ↦
          let w1 = whole_if_done (header_bytes (header_of job)) ws d1 in
          elim (Bool-cases (length job.arg_tags == 0)) [
            | inl none_given ↦
                rw (d1, none_given) (w1 ∙ sym (append-nil (header_bytes (header_of job))))
            | inr given ↦ elim (Bool-cases second.done) [
              | inr cut ↦ absurd (ground arith)
              | inl d2 ↦
                  let d3 : (write_full values second.writes).done ≡ true =
                    rw (d1, given, d2) at e in
                  rw (d1, given, d2)
                    (ap₂ (λ a b. a ++ b) w1
                      (ap₂ (λ a b. a ++ b) (whole_if_done tags first.writes d2)
                        (whole_if_done values second.writes d3)))
            ]
          ]
    ]

-- When one does not, something is missing.
pub send_job-cut :
    (job : Job) (ws : List WriteEvent)
    → (send_job job ws).done ≡ false
    → (rest : List ℕ) × ((send_job job ws).sent ++ rest ≡ job_bytes job) × (0 < length rest)
unfolding send_job
send_job-cut job ws e =
    let header = header_bytes (header_of job) in
    let first = write_full header ws in
    let tags = array_bytes 4 job.arg_tags in
    let second = write_full tags first.writes in
    let values = array_bytes 8 job.arg_values in
    let body = if length job.arg_tags == 0 then [] else tags ++ values in
    elim (Bool-cases first.done) [
      | inr d1 ↦
          let (rest, whole, more) = rest_if_cut header ws d1 in
          (
            rest ++ body,
            rw d1 (sym (append_assoc first.sent rest body) ∙ ap (λ t. t ++ body) whole),
            omega (arith, length-append rest body),
          )
      | inl d1 ↦
          let w1 = whole_if_done header ws d1 in
          elim (Bool-cases (length job.arg_tags == 0)) [
            | inl none_given ↦ absurd (ground arith)
            | inr given ↦ elim (Bool-cases second.done) [
              | inr d2 ↦
                  let (rest, whole, more) = rest_if_cut tags first.writes d2 in
                  (
                    rest ++ values,
                    rw (d1, given, d2)
                        (append_assoc first.sent second.sent (rest ++ values)
                          ∙ ap₂ (λ a b. a ++ b) w1
                              (sym (append_assoc second.sent rest values)
                                ∙ ap (λ t. t ++ values) whole)),
                    omega (arith, length-append rest values),
                  )
              | inl d2 ↦
                  let third = write_full values second.writes in
                  let d3 : third.done ≡ false = rw (d1, given, d2) at e in
                  let (rest, whole, more) = rest_if_cut values second.writes d3 in
                  (
                    rest,
                    rw (d1, given, d2)
                        (append_assoc first.sent (second.sent ++ third.sent) rest
                          ∙ ap₂ (λ a b. a ++ b) w1
                              (append_assoc second.sent third.sent rest
                                ∙ ap₂ (λ a b. a ++ b) (whole_if_done tags first.writes d2) whole)),
                    more,
                  )
            ]
          ]
    ]

read_arguments_short :
    (hdr : WireJobHeader) (pipe : List ReadEvent)
    → IsSound pipe
    → length (carried pipe) < hdr.nargs * 4 + hdr.nargs * 8
    → read_arguments hdr pipe ≡ none
unfolding read_arguments
read_arguments_short hdr pipe sound h =
    elim (Bool-cases (ltb (length (carried pipe)) (hdr.nargs * 4))) [
      | inl short ↦ rw (read_full_short (hdr.nargs * 4) pipe sound (ground arith), ◌>>=◌) refl
      | inr long ↦
          let (pipe', reads, leaves, sound') =
            read_full_gathers (hdr.nargs * 4) pipe sound (ground arith) in
          let left = ap length leaves ∙ length-drop (hdr.nargs * 4) (carried pipe) in
          rw (reads, ◌>>=◌, read_full_short (hdr.nargs * 8) pipe' sound' (ground arith)) refl
    ]

abbrev body_of : Job → List ℕ
body_of job =
    if length job.arg_tags == 0
    then []
    else array_bytes 4 job.arg_tags ++ array_bytes 8 job.arg_values

length-body :
    (job : Job)
    → IsWire job
    → length (body_of job)
      ≡ (if length job.arg_tags == 0 then 0 else length job.arg_tags * 4 + length job.arg_tags * 8)
length-body job w = elim (Bool-cases (length job.arg_tags == 0)) [
  | inl none_given ↦ rw none_given refl
  | inr given ↦ rw given (
      length-append (array_bytes 4 job.arg_tags) (array_bytes 8 job.arg_values)
      ∙ ap₂ (λ a b. a + b) (length-array_bytes 4 job.arg_tags)
          (length-array_bytes 8 job.arg_values ∙ ap (λ n. n * 8) w.paired))
]

check_job_cut :
    (job : Job) (pipe : List ReadEvent) (rest : List ℕ)
    → IsWire job
    → IsSound pipe
    → length (carried pipe) + length rest
      ≡ (if length job.arg_tags == 0 then 0 else length job.arg_tags * 4 + length job.arg_tags * 8)
    → 0 < length rest
    → check_job (exact_header job) (read_arguments (exact_header job) pipe) ≡ none
unfolding check_job
check_job_cut job pipe rest w sound e missing =
    let within : ltb k_max_args (length job.arg_tags) ≡ false = ground (arith, w.few) in
    elim (Bool-cases (length job.arg_tags == 0)) [
      | inl none_given ↦ absurd (ground arith)
      | inr given ↦
          rw (within, given) (read_arguments_short (exact_header job) pipe sound (ground arith))
    ]

-- A worker that gets only the start of a job reads none.
pub read_job_cut :
    (job : Job) (pipe : List ReadEvent) (rest : List ℕ)
    → IsWire job
    → IsSound pipe
    → carried pipe ++ rest ≡ job_bytes job
    → 0 < length rest
    → read_job pipe ≡ none
unfolding read_job
read_job_cut job pipe rest w sound e missing =
    let header = header_bytes (header_of job) in
    let total = sym (length-append (carried pipe) rest) ∙ ap length e in
    elim (Bool-cases (ltb (length (carried pipe)) 16)) [
      | inl short ↦ rw (read_full_short 16 pipe sound (ground arith), ◌>>=◌) refl
      | inr long ↦
          let (pipe', reads, leaves, sound') = read_full_gathers 16 pipe sound (ground arith) in
          let in_front : take 16 (carried pipe) ≡ header =
            sym (take-append_short 16 (carried pipe) rest (ground arith))
            ∙ ap (take 16) e
            ∙ take-append 16 header _ (length-header_bytes (header_of job)) in
          let back =
            read_header-header_bytes (header_of job) w.narrow_addr w.narrow_ret
              (omega (arith, w.few)) in
          let long' : 16 ≤ length (carried pipe) = ground arith in
          let left = ap length leaves ∙ length-drop 16 (carried pipe) in
          rw (reads, ◌>>=◌)
            (ap (λ hd. check_job hd (read_arguments hd pipe'))
                (ap read_header in_front ∙ back ∙ header_of-exact job w)
              ∙ check_job_cut job pipe' rest w sound'
                  (omega (
                    arith,
                    left,
                    total,
                    long',
                    length-append header (body_of job),
                    length-header_bytes (header_of job),
                    length-body job w,
                  ))
                  missing)
    ]
