-- ===== src/Server.antt =====
-- api: the server, as far as it decides what a machine may do. A `Date` is the number of
-- milliseconds since the earliest instant of the type, and each statement of the database is one
-- step on its tables.
pub mod Credentials
pub mod Machines
pub mod Number
pub mod Push
pub mod Reports
pub mod Sessions
pub mod Usage
use taymna.Common.{ℕ}

abbrev pub Time : Type 0
Time = ℕ

-- `Platform` of api/prisma/schema.prisma.
pub data Platform : Type 0 where
  windows linux macos : Platform

-- The exceptions that become a response with the status 400, 404 and 409.
pub data HttpError : Type 0 where
  bad_request not_found conflict : HttpError

pub data HttpResult {ℓ} (A : Type ℓ) : Type ℓ where
  ok : A → HttpResult A
  err : HttpError → HttpResult A
