-- ===== src/Net/Codes.antt =====
-- kmod/src/net.c: the errors of a response on the wire, and in the host. A host error is the number that it negates.
use scoutfs.Net.{Conn, Submit, err_unknown, is_bad_submit, submit_send}
use scoutfs.Prelude.{
  Bool, List, Option, Result, [], arith, einval, err, false, if◌then◌else◌, leb, none, refl, some,
  true, ℕ, ◌&&◌, ◌+◌, ◌-◌, ◌==◌, ◌^◌, ◌∷◌, ◌≡◌,
}

-- ENOENT, ENOMEM, EIO, ENOSPC and EINVAL
abbrev pub host_errnos : List ℕ
host_errnos = 2 ∷ 12 ∷ 5 ∷ 28 ∷ 22 ∷ []

-- The error of this code among those from `n` on
unfoldable pub errno_at : (n code : ℕ) → List ℕ → Option ℕ
errno_at n code [] = none
errno_at n code (e ∷ es) = if code == n then some e else errno_at (n + 1) code es

unfoldable pub code_of : (n ind : ℕ) → List ℕ → Option ℕ
code_of n ind [] = none
code_of n ind (e ∷ es) = if ind == e then some n else code_of (n + 1) ind es

unfoldable pub net_err_to_host : ℕ → ℕ
net_err_to_host net_err =
    if net_err == 0 then 0 else elim (errno_at 1 net_err host_errnos) [ some e ↦ e | none ↦ 22 ]

-- -EINVAL as a u8, for an error that has no code
unfoldable pub net_err_from_host : ℕ → ℕ
net_err_from_host ind =
    if ind == 0 then 0 else elim (code_of 1 ind host_errnos) [ some n ↦ n | none ↦ 2 ^ 8 - 22 ]

-- The part of `scoutfs_net_response` for the connection itself
unfoldable pub net_response :
    (forcing_unmount allocs : Bool)
    → Conn
    → (cmd id error data_len : ℕ) → (has_data : Bool) → Result ℕ × Conn
net_response forcing_unmount allocs conn cmd id error data_len has_data =
    submit_send forcing_unmount allocs conn (record {
      cmd = cmd;
      flags = 1;
      id = id;
      net_err = net_err_from_host error;
      data_len = if error == 0 then data_len else 0;
      has_data = error == 0 && has_data;
      resp_func = none;
    })

refused :
    (f a : Bool)
    → (conn : Conn) → (s : Submit) → is_bad_submit s ≡ true
    → submit_send f a conn s ≡ (err einval, conn)
unfolding submit_send
refused f a conn s bad = rw bad refl

big_code_bad : (s : Submit) → leb err_unknown s.net_err ≡ true → is_bad_submit s ≡ true
big_code_bad s big = ground arith

unknown_code :
    (ind : ℕ)
    → (ind == 0) ≡ false
    → code_of 1 ind host_errnos ≡ none
    → leb err_unknown (net_err_from_host ind) ≡ true
unfolding net_err_from_host
unknown_code ind used e = rw (used, e) refl

-- A response with an error for which the wire has no code is not sent: the number that it gets stands for no error of
-- the wire, and the submission is refused with -EINVAL, the connection left as it was.
pub net_response-no_code :
    (f a : Bool)
    → (conn : Conn) → (cmd id error data_len : ℕ) → (has_data : Bool) → (error == 0) ≡ false
    → code_of 1 error host_errnos ≡ none
    → net_response f a conn cmd id error data_len has_data ≡ (err einval, conn)
unfolding net_response
net_response-no_code f a conn cmd id error data_len has_data used e =
    refused f a conn
      (record {
        cmd = cmd;
        flags = 1;
        id = id;
        net_err = net_err_from_host error;
        data_len = if error == 0 then data_len else 0;
        has_data = error == 0 && has_data;
        resp_func = none;
      })
      (big_code_bad
        (record {
          cmd = cmd;
          flags = 1;
          id = id;
          net_err = net_err_from_host error;
          data_len = if error == 0 then data_len else 0;
          has_data = error == 0 && has_data;
          resp_func = none;
        })
        (unknown_code error used e))

-- An error that has a code is the same at the other end.
pub net_err_to_host-net_err_from_host :
    (error n : ℕ)
    → code_of 1 error host_errnos ≡ some n
    → net_err_to_host (net_err_from_host error) ≡ error
unfolding net_err_to_host net_err_from_host code_of errno_at
net_err_to_host-net_err_from_host error n e = ground arith
