-- ===== src/Ctrace/Told.antt =====
-- Writes of several parts of a program in one stream: what a receiver is told by them together.
use mathlib.Core.List.{append-nil, append_assoc}
use trace_fs.Base.{ℕ, ◌^◌, ◌<◌, ◌≡◌, List, [], ◌∷◌, ◌++◌, ap, ◌∙◌, refl, sym}
use trace_fs.Ctrace.Emit.{CsrWrite, ownership_trace}
use trace_fs.Ctrace.Protocol.{Message, owner, idle, receive}
use trace_fs.Ctrace.Call.{Call, ownership, emit, emit_all, AllFit, meaning, meanings}
use trace_fs.Ctrace.Stream.{receive-emit_all}
use trace_fs.Ctrace.Test.{
  test_writes, expected, calls, emit_all-calls, meanings-calls, calls-AllFit,
}

pub emit_all-append : (xs ys : List Call) → emit_all (xs ++ ys) ≡ emit_all xs ++ emit_all ys
unfolding emit_all
emit_all-append [] ys = refl
emit_all-append (x ∷ xs) ys =
    ap (λ (t : List CsrWrite). emit x ++ t) (emit_all-append xs ys)
    ∙ sym (append_assoc (emit x) (emit_all xs) (emit_all ys))

pub AllFit-append : (xs ys : List Call) → AllFit xs → AllFit ys → AllFit (xs ++ ys)
AllFit-append [] ys hx hy = hy
AllFit-append (x ∷ xs) ys hx hy = (hx.0, AllFit-append xs ys hx.1 hy)

meanings-append : (xs ys : List Call) → meanings (xs ++ ys) ≡ meanings xs ++ meanings ys
meanings-append [] ys = refl
meanings-append (x ∷ xs) ys =
    ap (λ (t : List Message). meaning x ++ t) (meanings-append xs ys)
    ∙ sym (append_assoc (meaning x) (meanings xs) (meanings ys))

-- The writes are those of whole calls, which stand for these messages.
pub record Told (writes : List CsrWrite) (messages : List Message) : Type 0 where
  pub made : List Call
  pub writes_are : writes ≡ emit_all made
  pub fit : AllFit made
  pub messages_are : meanings made ≡ messages

pub Told-nil : Told [] []
Told-nil = record { made = []; writes_are = unfold emit_all in refl; fit = tt; messages_are = refl }

pub Told-append :
    (w v : List CsrWrite) (ms ns : List Message) → Told w ms → Told v ns → Told (w ++ v) (ms ++ ns)
Told-append w v ms ns h k = record {
  made = h.made ++ k.made;
  writes_are = rw (h.writes_are, k.writes_are) (sym (emit_all-append h.made k.made));
  fit = AllFit-append h.made k.made h.fit k.fit;
  messages_are = meanings-append h.made k.made ∙ rw (h.messages_are, k.messages_are) refl;
}

pub Told-owner : (id : ℕ) → id < 2 ^ 16 → Told (ownership_trace id) (owner id ∷ [])
unfolding emit_all emit
Told-owner id h = record {
  made = ownership id ∷ [];
  writes_are = sym (append-nil (ownership_trace id));
  fit = (h, tt);
  messages_are = refl;
}

pub Told-test :
    (k misa self : ℕ)
    → k < 8
    → self < 2 ^ 32
    → Told (test_writes k misa self) (expected k misa self)
Told-test k misa self h hs = record {
  made = calls k misa self;
  writes_are = sym (emit_all-calls k misa self h);
  fit = calls-AllFit k misa self h hs;
  messages_are = meanings-calls k misa self h;
}

pub receive-Told : (w : List CsrWrite) (ms : List Message) → Told w ms → receive idle w ≡ ms
receive-Told w ms h = rw h.writes_are (receive-emit_all h.made h.fit ∙ h.messages_are)
