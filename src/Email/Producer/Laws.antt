-- ===== src/Email/Producer/Laws.antt =====
-- What comes out of the queues.
use mathlib.Core.List.{append_assoc, append-nil}
use conference_contact.Prelude.{
  ℕ, zero, suc, ◌+◌, ◌*◌, ◌/◌, ◌≤◌, length-drop-le, ◌≡◌, refl, sym, ap, ◌∙◌, String, Bool, true,
  false, Option, none, some, List, [], ◌∷◌, ◌++◌, inl, inr, length, take, drop, Bool-cases, arith,
  if◌then◌else◌,
}
use conference_contact.Admin.{intro, value, urgency}
use conference_contact.Email.Jobs.{process_email}
use conference_contact.Email.Payload.{QueuedJob, read_job, process_job}
use conference_contact.Email.Mails.{EmailEnv, Mail}
use conference_contact.Email.Producer.{
  EmailCall, send_welcome_email, send_verification_email, send_password_reset_email,
  send_device_verification_code, send_contact_form_message, send_contact_message_reply,
  send_subscription_confirmed, send_admin_access_invite, send_prospect_pitch, send_invite_email,
  send_renewal_reminder, send_payment_failed, send_cancellation_scheduled, job_of, enqueue, send,
  enqueue_chunks, send_prospect_invite_bulk,
}

-- Whom a call writes to.
abbrev pub recipient : EmailEnv → EmailCall → String
recipient env (send_welcome_email to full_name) = to
recipient env (send_verification_email to token) = to
recipient env (send_password_reset_email to token) = to
recipient env (send_device_verification_code to code) = to
recipient env (send_contact_form_message name from_email reason message) = env.support_email
recipient env (send_contact_message_reply to name original_message reply_message) = to
recipient env (send_subscription_confirmed to product_label amount_cents renews_at) = to
recipient env (send_admin_access_invite to directory lead_finder) = to
recipient env (send_prospect_pitch to full_name template) = to
recipient env (send_invite_email to inviter_name) = to
recipient env (send_renewal_reminder to product_label renewal_date amount_cents) = to
recipient env (send_payment_failed to product_label grace_period_days) = to
recipient env (send_cancellation_scheduled to product_label access_until) = to

-- The addresses of the mails that the worker makes of a queue.
abbrev pub with_mail : Option Mail → List String → List String
with_mail none rest = rest
with_mail (some m) rest = m.to ∷ rest

abbrev pub mailed : EmailEnv → List QueuedJob → List String
mailed env [] = []
mailed env (job ∷ jobs) = with_mail (process_job env job) (mailed env jobs)

-- Calls one after the other, and those of them that Redis takes.
abbrev pub send_each : List (Bool × EmailCall) → List QueuedJob → List QueuedJob
send_each [] queue = queue
send_each ((taken, call) ∷ calls) queue = send_each calls (send taken call queue)

abbrev pub recipients : EmailEnv → List (Bool × EmailCall) → List String
recipients env [] = []
recipients env ((taken, call) ∷ calls) =
    let rest = recipients env calls in if taken then recipient env call ∷ rest else rest

-- No call makes a job that the worker does not know.
job-recipient :
    (env : EmailEnv) (call : EmailCall)
    → (m : Mail) × (process_job env (job_of call) ≡ some m) × (m.to ≡ recipient env call)
unfolding job_of process_job read_job process_email
job-recipient env (send_welcome_email to full_name) = (_, refl, refl)
job-recipient env (send_verification_email to token) = (_, refl, refl)
job-recipient env (send_password_reset_email to token) = (_, refl, refl)
job-recipient env (send_device_verification_code to code) = (_, refl, refl)
job-recipient env (send_contact_form_message name from_email reason message) = (_, refl, refl)
job-recipient env (send_contact_message_reply to name original_message reply_message) =
    (_, refl, refl)
job-recipient env (send_subscription_confirmed to product_label amount_cents renews_at) =
    (_, refl, refl)
job-recipient env (send_admin_access_invite to directory lead_finder) = (_, refl, refl)
job-recipient env (send_prospect_pitch to full_name intro) = (_, refl, refl)
job-recipient env (send_prospect_pitch to full_name value) = (_, refl, refl)
job-recipient env (send_prospect_pitch to full_name urgency) = (_, refl, refl)
job-recipient env (send_invite_email to inviter_name) = (_, refl, refl)
job-recipient env (send_renewal_reminder to product_label renewal_date amount_cents) =
    (_, refl, refl)
job-recipient env (send_payment_failed to product_label grace_period_days) = (_, refl, refl)
job-recipient env (send_cancellation_scheduled to product_label access_until) = (_, refl, refl)

with_mail-append :
    (o : Option Mail) (xs ys : List String) → with_mail o xs ++ ys ≡ with_mail o (xs ++ ys)
with_mail-append none xs ys = refl
with_mail-append (some m) xs ys = refl

mailed-append :
    (env : EmailEnv) (xs ys : List QueuedJob)
    → mailed env (xs ++ ys) ≡ mailed env xs ++ mailed env ys
mailed-append env [] ys = refl
mailed-append env (x ∷ xs) ys =
    rw
      (
        mailed-append env xs ys,
        with_mail-append (process_job env x) (mailed env xs) (mailed env ys),
      )
      refl

-- Whichever calls of the mail service Redis takes, the worker makes one mail of each of those, to
-- its recipient, in the order of the calls, after the mails that were waiting.
pub mailed-send_each :
    (env : EmailEnv) (calls : List (Bool × EmailCall)) (queue : List QueuedJob)
    → mailed env (send_each calls queue) ≡ mailed env queue ++ recipients env calls
unfolding send enqueue
mailed-send_each env [] queue = sym (append-nil (mailed env queue))
mailed-send_each env ((true, call) ∷ calls) queue =
    let (m, known, same) = job-recipient env call in
    let here = mailed-send_each env calls (queue ++ job_of call ∷ []) in
    let both = mailed-append env queue (job_of call ∷ []) in
    let assoc = append_assoc (mailed env queue) (recipient env call ∷ []) (recipients env calls) in
    here ∙ rw (both, known, same) assoc
mailed-send_each env ((false, call) ∷ calls) queue = mailed-send_each env calls queue

-- The addresses whose chunk is taken, where `i` is the index of the first one.
abbrev pub taken_from : (ℕ → Bool) → ℕ → List String → List String
taken_from taken i [] = []
taken_from taken i (e ∷ es) =
    let rest = taken_from taken (suc i) es in if taken (i / 500 * 500) then e ∷ rest else rest

-- the rest of a chunk
rest_of_chunk :
    (taken : ℕ → Bool) (k left i : ℕ) (es : List String)
    → i + left ≡ k * 500 + 500
    → left ≤ 500
    → taken_from taken i es
      ≡ (if taken (k * 500) then take left es else []) ++ taken_from taken (i + left) (drop left es)
rest_of_chunk taken k zero i es here few =
    let same : i + 0 ≡ i = omega arith in
    elim (Bool-cases (taken (k * 500))) [ inl t ↦ rw (t, same) refl | inr t ↦ rw (t, same) refl ]
rest_of_chunk taken k (suc left) i [] here few = elim (Bool-cases (taken (k * 500))) [
  | inl t ↦ rw t refl
  | inr t ↦ rw t refl
]
rest_of_chunk taken k (suc left) i (e ∷ es) here few =
    let chunk : i / 500 * 500 ≡ k * 500 = omega (arith, here, few) in
    let same : i + suc left ≡ suc i + left = omega arith in
    let next = rest_of_chunk taken k left (suc i) es (omega (arith, here)) (omega (arith, few)) in
    elim (Bool-cases (taken (k * 500))) [
      | inl t ↦ rw (chunk, same, next, t) refl
      | inr t ↦ rw (chunk, same, next, t) refl
    ]

grown :
    (b : Bool) (xs queue : List String)
    → (if b then queue ++ xs else queue) ≡ queue ++ (if b then xs else [])
grown true xs queue = refl
grown false xs queue = sym (append-nil queue)

enqueue_chunks_lem :
    (fuel : ℕ) (taken : ℕ → Bool) (k : ℕ) (emails queue : List String)
    → length emails ≤ fuel
    → enqueue_chunks fuel taken (k * 500) emails queue ≡ queue ++ taken_from taken (k * 500) emails
unfolding enqueue_chunks
enqueue_chunks_lem zero taken k [] queue enough = sym (append-nil queue)
enqueue_chunks_lem zero taken k (e ∷ es) queue enough = absurd (omega (arith, enough))
enqueue_chunks_lem (suc fuel) taken k [] queue enough = sym (append-nil queue)
enqueue_chunks_lem (suc fuel) taken k (e ∷ es) queue enough =
    let now = rest_of_chunk taken k 500 (k * 500) (e ∷ es) refl (omega arith) in
    let next : k * 500 + 500 ≡ suc k * 500 = omega arith in
    let fewer : length (drop 500 (e ∷ es)) ≤ fuel = omega (arith, enough, length-drop-le 499 es) in
    let kept : List String = if taken (k * 500) then take 500 (e ∷ es) else [] in
    let left = drop 500 (e ∷ es) in
    let rest : enqueue_chunks fuel taken (k * 500 + 500) left (queue ++ kept)
        ≡ queue ++ kept ++ taken_from taken (k * 500 + 500) left =
      rw next (enqueue_chunks_lem fuel taken (suc k) left (queue ++ kept) fewer) in
    ap (λ q. enqueue_chunks fuel taken (k * 500 + 500) left q)
      (grown (taken (k * 500)) (take 500 (e ∷ es)) queue)
    ∙ rest
    ∙ append_assoc queue kept (taken_from taken (k * 500 + 500) left)
    ∙ ap (λ r. queue ++ r) (sym now)

-- Whichever chunks Redis takes, a batch of invitations puts exactly the addresses of those chunks on
-- the queue, each once and in their order, after what was there; an address is in the chunk that
-- starts at its index rounded down to five hundreds.
pub enqueued_by_chunks :
    (taken : ℕ → Bool) (emails queue : List String)
    → send_prospect_invite_bulk taken emails queue ≡ queue ++ taken_from taken 0 emails
unfolding send_prospect_invite_bulk
enqueued_by_chunks taken emails queue =
    enqueue_chunks_lem (length emails) taken 0 emails queue (omega arith)
