-- ===== src/Io/StreamWriter/Answers.antt =====
-- Each write is answered once, and in order.
use php_flame.Prelude.{
  ℕ, zero, suc, Bool, throws, if◌then◌else◌, append-nil, ◌≡◌, refl, sym, ap, ◌∙◌, List, [], ◌∷◌,
  ◌++◌, append_assoc, arith, Bytes, returns,
}
use php_flame.Io.StreamWriter.{
  Writer, stream_writer, write, given, taken_by, close, Status, done, canceled, error, write_cb,
  resumes, Reach, start, writes, answers, closes,
}

write-requests :
    (err co : ℕ) (str : Bytes) (w v : Writer)
    → write err co str w ≡ returns v
    → v.requests ≡ w.requests ++ taken_by err co
unfolding write given taken_by
write-requests zero co str w v e = ground arith
write-requests (suc err) co str w v e =
    sym (append-nil w.requests ∙ sent w.is_open (record w { lost = w.lost ++ co ∷ [] }) refl e)
  where
    sent :
        (b : Bool) (u : Writer)
        → u.requests ≡ w.requests
        → (if b then returns u else throws "failed to write: stream is already closed") ≡ returns v
        → w.requests ≡ v.requests
    sent b u same f = ground (arith, same, f)

answered :
    (status : Status) (co : ℕ) (w : Writer)
    → let (v, e) = write_cb status co w in (v.requests ≡ w.requests) × (resumes e ≡ co)
unfolding write_cb close
answered done co w = (refl, refl)
answered canceled co w = (refl, refl)
answered (error n) co w = (refl, refl)

moved :
    (resumed rest taken requests : List ℕ) (co : ℕ)
    → requests ≡ co ∷ rest
    → resumed ++ requests ≡ taken
    → (resumed ++ co ∷ []) ++ rest ≡ taken
moved resumed rest taken requests co e h =
    append_assoc resumed (co ∷ []) rest ∙ ap (λ l. resumed ++ l) (sym e) ∙ h

-- In every run of a writer, whatever closes it meanwhile, where libuv answers its writes in their
-- order: the coroutines that it has resumed, and behind them those whose writes are not answered yet,
-- are those whose writes libuv has taken, in order. A coroutine whose write it has refused is not
-- among them, and is never resumed.
pub Reach-requests :
    {taken resumed : List ℕ} {w : Writer} → Reach taken resumed w → resumed ++ w.requests ≡ taken
Reach-requests start = unfold stream_writer in refl
Reach-requests (writes {taken} {resumed} {w} {v} r err co str e) =
    ap (λ l. resumed ++ l) (write-requests err co str w v e)
    ∙ sym (append_assoc resumed w.requests (taken_by err co))
    ∙ ap (λ l. l ++ taken_by err co) (Reach-requests r)
Reach-requests (answers {taken} {resumed} {w} {co} {rest} r e status) =
    let (same, who) = answered status co (record w { requests = rest }) in
    ap (λ l. (resumed ++ resumes (write_cb status co (record w { requests = rest })).1 ∷ []) ++ l)
      same
    ∙ ap (λ x. (resumed ++ x ∷ []) ++ rest) who
    ∙ moved resumed rest taken w.requests co e (Reach-requests r)
Reach-requests (closes {taken} {resumed} {w} r) = kept (Reach-requests r)
  where
    kept : resumed ++ w.requests ≡ taken → resumed ++ (close w).requests ≡ taken
    kept h = unfold close in h
