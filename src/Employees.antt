-- ===== src/Employees.antt =====
-- backend/src/employees: the domain of employees, the desks and `EmployeeService`.
pub mod Domain
pub mod Repository
pub mod Desk
pub mod Service
pub mod Invariant
