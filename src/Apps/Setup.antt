-- ===== src/Apps/Setup.antt =====
-- app_initialize of apps/radar_correlator.cpp, which is that of apps/SAR/SAR.cpp.
use ece506scheduler.Base.{pos, [], List, text, if◌then◌else◌, is_some}
use ece506scheduler.Task.{AppDescriptor, cpu, fft}
use ece506scheduler.Registry.{Registry, find_app, register_app}
use ece506scheduler.Dash.Provider.{Provider, register_provider}
use ece506scheduler.Device.Fleet.{Workload, Device, make_cpu_mock, fleet}
use ece506scheduler.Device.World.{World}
use ece506scheduler.Scheduler.Impl.{Impl, add_accelerator}

-- The descriptor that is registered where there is none; its kind is the struct's default.
abbrev pub plain_fft : AppDescriptor
plain_fft = record {
  app = text "fft";
  bitstream_path = [];
  kernel_name = text "fft_kernel";
  kind = cpu;
}

unfoldable pub register_fft : Registry → Registry
register_fft reg = if is_some (find_app (text "fft") reg) then reg else register_app plain_fft reg

abbrev pub fft_providers : List Provider → List Provider
fft_providers ps =
    register_provider (record { op = text "fft"; kind = cpu; instance_id = 0; priority = pos 10 })
      (register_provider (record { op = text "fft"; kind = fft; instance_id = 0; priority = pos 0 })
        ps)

unfoldable pub app_initialize :
    Workload → Impl Device World → List Provider → Impl Device World × List Provider
app_initialize work s ps = (
  add_accelerator (fleet work) (make_cpu_mock 0) (record s { reg = register_fft s.reg }),
  fft_providers ps,
)

-- That of apps/SAR/SAR.cpp.
abbrev pub sar_initialize :
    Workload → Impl Device World → List Provider → Impl Device World × List Provider
sar_initialize = app_initialize
