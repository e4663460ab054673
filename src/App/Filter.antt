-- ===== src/App/Filter.antt =====
-- What a request that throws is answered (backend/src/common/exceptions/domain-exception.filter.ts).
-- Messages are left out.
use kreav.Base.{ℕ, String, leb, if◌then◌else◌}
use kreav.App.{
  Exn, not_found, bad_request, conflict, forbidden, unauthorized, invalid_transition, domain,
  unique_violation, simulation_error, submission_error, network_error, timeout_error,
  http_not_found, bad_gateway, other,
}

pub record ErrorBody : Type 0 where
  pub code : String
  pub status_code : ℕ

-- The second layer, NestJS's exceptions.
abbrev pub passed_on : ℕ → ErrorBody
passed_on status = record {
  code = if leb 500 status then "INTERNAL_ERROR" else "REQUEST_ERROR";
  status_code = status;
}

-- The third, whatever else is thrown.
abbrev pub sanitized : ErrorBody
sanitized = record { code = "INTERNAL_ERROR"; status_code = 500 }

unfoldable pub catch : Exn → ErrorBody
catch (domain code status) = record { code = code; status_code = status }
catch not_found = passed_on 404
catch bad_request = passed_on 400
catch conflict = passed_on 409
catch forbidden = passed_on 403
catch unauthorized = passed_on 401
catch (invalid_transition from to) = passed_on 400
catch bad_gateway = passed_on 502
catch unique_violation = sanitized
catch simulation_error = sanitized
catch submission_error = sanitized
catch network_error = sanitized
catch (timeout_error hash) = sanitized
catch http_not_found = sanitized
catch other = sanitized
