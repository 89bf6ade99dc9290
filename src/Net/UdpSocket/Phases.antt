-- ===== src/Net/UdpSocket/Phases.antt =====
-- The phases of a socket, and what bind(), recv() and send() keep.
use php_flame.Prelude.{ℕ, zero, suc, ◌≡◌, Bool, true, false, Option, none, some}
use php_flame.Net.UdpSocket.{Socket, bind_in, recv_in, init_ex, send_in}

-- By `sck`, `receiving`, `co_` and the number of releases. Before the socket is released, a coroutine
-- waits where it receives; it waits for nothing where bind() was called again in between. Released
-- once, the socket does not receive, and a coroutine waits for ever in it where recv() was called
-- again while close() resumed one.
pub data Phase : Bool → Bool → Option ℕ → ℕ → Type 0 where
  is_idle : Phase true false none 0
  is_receiving : (co : ℕ) → Phase true true (some co) 0
  is_deaf : (co : ℕ) → Phase true false (some co) 0
  is_released : Phase false false none 1
  is_stranded : (co : ℕ) → Phase false false (some co) 1

abbrev pub HasPhase : Socket → Type 0
HasPhase s = Phase s.sck s.receiving s.co s.released

-- What holds while close() resumes a coroutine, too: a socket that is released is released once.
pub data Loose : Bool → Bool → Option ℕ → ℕ → Type 0 where
  is_open : (r : Bool) (c : Option ℕ) → Loose true r c 0
  is_gone : (c : Option ℕ) → Loose false false c 1

abbrev pub IsLoose : Socket → Type 0
IsLoose s = Loose s.sck s.receiving s.co s.released

pub loosely : {b r : Bool} {c : Option ℕ} {n : ℕ} → Phase b r c n → Loose b r c n
loosely is_idle = is_open false none
loosely (is_receiving co) = is_open true (some co)
loosely (is_deaf co) = is_open false (some co)
loosely is_released = is_gone none
loosely (is_stranded co) = is_gone (some co)

pub released-Phase : (c : Option ℕ) → Phase false false c 1
released-Phase none = is_released
released-Phase (some co) = is_stranded co

pub open-Phase : (c : Option ℕ) → Phase true false c 0
open-Phase none = is_idle
open-Phase (some co) = is_deaf co

-- A handle that is made anew.
pub quiet : {b r : Bool} {c : Option ℕ} {n : ℕ} → b ≡ true → Phase b r c n → Phase b false c n
quiet e is_idle = is_idle
quiet e (is_receiving co) = is_deaf co
quiet e (is_deaf co) = is_deaf co
quiet e is_released = cc e
quiet e (is_stranded co) = cc e

-- Any coroutine and any reception of a socket that is open.
pub reopened :
    {b r : Bool} {c : Option ℕ} {n : ℕ} (q : Bool) (d : Option ℕ)
    → b ≡ true
    → Loose b r c n
    → Loose b q d n
reopened q d e (is_open r c) = is_open q d
reopened q d e (is_gone c) = cc e

pub rejoined : {b r : Bool} {c : Option ℕ} {n : ℕ} (d : Option ℕ) → Loose b r c n → Loose b r d n
rejoined d (is_open r c) = is_open r d
rejoined d (is_gone c) = is_gone d

pub bind_in-HasPhase :
    (b : Bool) (addr_err bind_err : ℕ) (s : Socket)
    → s.sck ≡ b
    → HasPhase s
    → HasPhase (bind_in b addr_err bind_err s).1
unfolding bind_in init_ex
bind_in-HasPhase false a e s o p = p
bind_in-HasPhase true (suc a) e s o p = p
bind_in-HasPhase true zero (suc e) s o p = quiet o p
bind_in-HasPhase true zero zero s o p = quiet o p

pub bind_in-IsLoose :
    (b : Bool) (addr_err bind_err : ℕ) (s : Socket)
    → s.sck ≡ b
    → IsLoose s
    → IsLoose (bind_in b addr_err bind_err s).1
unfolding bind_in init_ex
bind_in-IsLoose false a e s o p = p
bind_in-IsLoose true (suc a) e s o p = p
bind_in-IsLoose true zero (suc e) s o p = reopened false s.co o p
bind_in-IsLoose true zero zero s o p = reopened false s.co o p

pub send_in-IsLoose :
    (b : Bool) (addr_err err co : ℕ) (s : Socket)
    → IsLoose s
    → IsLoose (send_in b addr_err err co s).1
unfolding send_in
send_in-IsLoose false a e co s p = p
send_in-IsLoose true (suc a) e co s p = p
send_in-IsLoose true zero (suc e) co s p = p
send_in-IsLoose true zero zero co s p = p

pub recv_in-IsLoose :
    (b c : Bool) (err co : ℕ) (s : Socket)
    → s.sck ≡ b
    → IsLoose s
    → IsLoose (recv_in b c err co s).1
unfolding recv_in
recv_in-IsLoose false c err co s e p = p
recv_in-IsLoose true false err co s e p = p
recv_in-IsLoose true true (suc err) co s e p = p
recv_in-IsLoose true true zero co s e p = reopened true (some co) e p

pub send_in-HasPhase :
    (b : Bool) (addr_err err co : ℕ) (s : Socket)
    → HasPhase s
    → HasPhase (send_in b addr_err err co s).1
unfolding send_in
send_in-HasPhase false a e co s p = p
send_in-HasPhase true (suc a) e co s p = p
send_in-HasPhase true zero (suc e) co s p = p
send_in-HasPhase true zero zero co s p = p

pub waits :
    {b r : Bool} {c : Option ℕ} {n : ℕ} (co : ℕ)
    → b ≡ true
    → Phase b r c n
    → Phase b true (some co) n
waits co e is_idle = is_receiving co
waits co e (is_receiving c) = is_receiving co
waits co e (is_deaf c) = is_receiving co
waits co e is_released = cc e
waits co e (is_stranded c) = cc e

pub recv_in-HasPhase :
    (b c : Bool) (err co : ℕ) (s : Socket)
    → s.sck ≡ b
    → HasPhase s
    → HasPhase (recv_in b c err co s).1
unfolding recv_in
recv_in-HasPhase false c err co s e p = p
recv_in-HasPhase true false err co s e p = p
recv_in-HasPhase true true (suc err) co s e p = p
recv_in-HasPhase true true zero co s e p = waits co e p
