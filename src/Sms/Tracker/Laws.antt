-- ===== src/Sms/Tracker/Laws.antt =====
-- internal/sms/tracker.go: what a report or a timeout makes of a tracked message.
use gsm2mqtt.Base.{
  ℕ, true, false, Option, none, some, List, [], ◌∷◌, text_eq, ◌==◌, text_eq_iff, ==_iff, Bool-cases,
  ◌≡◌, ◌↔◌, refl, ap, ◌∙◌, arith, inl, inr,
}
use gsm2mqtt.Pdu.Types.{StatusReport}
use gsm2mqtt.Sms.Tracker.{
  TrackedSms, Key, Tracker, key_eq, pending_at, without_key, make_key, track, status_of, settle,
  handle_report, expire, handle_timeout,
}

key_eq_same : (k : Key) → key_eq k k ≡ true
key_eq_same k = rw ((text_eq_iff k.0 k.0).1 refl) ((==_iff k.1 k.1).1 refl)

pending_at-without_key :
    (key : Key) (m : List (Key × TrackedSms)) → pending_at key (without_key key m) ≡ none
unfolding pending_at without_key
pending_at-without_key key [] = refl
pending_at-without_key key ((k, item) ∷ m) = elim (Bool-cases (key_eq k key)) [
  | inl e ↦ rw e (pending_at-without_key key m)
  | inr e ↦ rw (e, pending_at, e) (pending_at-without_key key m)
]

gone :
    (key : Key) (report : StatusReport) (t : Tracker) (o : Option TrackedSms)
    → pending_at key t.pending ≡ o
    → pending_at key (settle key report o t).1.pending ≡ none
unfolding settle
gone key report t none h = h
gone key report t (some item) h = pending_at-without_key key t.pending

settle-none :
    (key : Key) (report : StatusReport) (t : Tracker) (o : Option TrackedSms)
    → o ≡ none
    → (settle key report o t).0 ≡ []
unfolding settle
settle-none key report t none h = refl
settle-none key report t (some item) h = cc

settle-some :
    (key : Key) (report : StatusReport) (t : Tracker) (o : Option TrackedSms) (item : TrackedSms)
    → o ≡ some item
    → (settle key report o t).0
      ≡ record {
        message_ref = report.message_ref;
        to = item.to;
        status = status_of report;
        modem_id = item.modem_id;
      }
        ∷ []
unfolding settle
settle-some key report t o item h = rw h refl

expire-none : (key : Key) (t : Tracker) (o : Option TrackedSms) → o ≡ none → (expire key o t).0 ≡ []
unfolding expire
expire-none key t none h = refl
expire-none key t (some item) h = cc

-- Whatever a report says, a temporary failure included, the tracker answers at most once: after
-- HandleReport no report and no timeout at the same key has an event.
pub handle_report_once :
    (report later : StatusReport) (t : Tracker)
    → make_key later.recipient later.message_ref ≡ make_key report.recipient report.message_ref
    → ((handle_report later (handle_report report t).1).0 ≡ [])
      × ((handle_timeout
            (make_key report.recipient report.message_ref)
            (handle_report report t).1).0
          ≡ [])
unfolding handle_report handle_timeout
handle_report_once report later t same =
    let key : Key = make_key report.recipient report.message_ref in
    let t1 : Tracker = (settle key report (pending_at key t.pending) t).1 in
    let none_left : pending_at key t1.pending ≡ none = gone key report t _ refl in
    (
      settle-none (make_key later.recipient later.message_ref) later t1 _
          (ap (λ (k : Key). pending_at k t1.pending) same ∙ none_left),
      expire-none key t1 _ none_left,
    )

-- Right after Track, a report whose recipient has the same canonical form and whose reference is the
-- same has one event: with the recipient and the modem that were tracked, and the report's status.
pub handle_report-track :
    (ref : ℕ) (to modem_id : List ℕ) (report : StatusReport) (t : Tracker)
    → make_key report.recipient report.message_ref ≡ make_key to ref
    → (handle_report report (track ref to modem_id t).1).0
      ≡ record {
        message_ref = report.message_ref;
        to = to;
        status = status_of report;
        modem_id = modem_id;
      }
        ∷ []
unfolding handle_report track
handle_report-track ref to modem_id report t same =
    let item : TrackedSms = record { ref = ref; to = to; modem_id = modem_id } in
    let t1 : Tracker = record {
      pending = (make_key to ref, item) ∷ without_key (make_key to ref) t.pending;
    } in
    let key : Key = make_key report.recipient report.message_ref in
    let found : pending_at key t1.pending ≡ some item =
      ap (λ (k : Key). pending_at k t1.pending) same
      ∙ unfold pending_at in rw (key_eq_same (make_key to ref)) refl in
    settle-some key report t1 _ item found

pub key_eq_iff : (a b : Key) → (key_eq a b ≡ true) ↔ (a ≡ b)
key_eq_iff a b = (
  λ e.
      (let texts : text_eq a.0 b.0 ≡ true = ground (arith, e) in
        let refs : (a.1 == b.1) ≡ true = ground (arith, e) in
        cc ((text_eq_iff a.0 b.0).0 texts, (==_iff a.1 b.1).0 refs)),
  λ e. rw e (key_eq_same b),
)

pending_at-without_key_other :
    (gone key : Key) (m : List (Key × TrackedSms))
    → key_eq gone key ≡ false
    → pending_at key (without_key gone m) ≡ pending_at key m
unfolding pending_at without_key
pending_at-without_key_other gone key [] h = refl
pending_at-without_key_other gone key ((k, item) ∷ m) h = elim (Bool-cases (key_eq k gone)) [
  | inl e ↦
      let off : key_eq k key ≡ false =
        ap (λ (x : Key). key_eq x key) ((key_eq_iff k gone).0 e) ∙ h in
      rw (e, off) (pending_at-without_key_other gone key m h)
  | inr e ↦ elim (Bool-cases (key_eq k key)) [
    | inl f ↦ rw (e, pending_at, f) refl
    | inr f ↦ rw (e, pending_at, f) (pending_at-without_key_other gone key m h)
  ]
]

-- The message that Track leaves at its own key, and at every other.
pub pending_at-track_same :
    (ref : ℕ) (to modem_id : List ℕ) (t : Tracker)
    → pending_at (make_key to ref) (track ref to modem_id t).1.pending
      ≡ some (record { ref = ref; to = to; modem_id = modem_id })
unfolding track pending_at
pending_at-track_same ref to modem_id t = rw (key_eq_same (make_key to ref)) refl

pub pending_at-track_other :
    (ref : ℕ) (to modem_id : List ℕ) (key : Key) (t : Tracker)
    → key_eq (make_key to ref) key ≡ false
    → pending_at key (track ref to modem_id t).1.pending ≡ pending_at key t.pending
unfolding track pending_at
pending_at-track_other ref to modem_id key t h =
    rw h (pending_at-without_key_other (make_key to ref) key t.pending h)

-- A report of a tracked message, with its one event.
pub handle_report-pending_at :
    (report : StatusReport) (t : Tracker) (item : TrackedSms)
    → pending_at (make_key report.recipient report.message_ref) t.pending ≡ some item
    → (handle_report report t).0
      ≡ record {
        message_ref = report.message_ref;
        to = item.to;
        status = status_of report;
        modem_id = item.modem_id;
      }
        ∷ []
unfolding handle_report
handle_report-pending_at report t item e =
    settle-some (make_key report.recipient report.message_ref) report t _ item e
